-- ===== src/Runtime/Seccomp/Filter.antt =====
-- What the filter of system calls answers, on a machine for the instructions that it is made of.
use sandkasten.Base.{
  ℕ, ◌%◌, ◌^◌, ◌==◌, ◌≡◌, ◌||◌, Bool, true, false, List, [], ◌∷◌, length, drop, Bool-cases, inl,
  inr, if◌then◌else◌, arith,
}
use sandkasten.Runtime.Seccomp.{Unix, SockFilter, deny, deny_each, seccomp_filter}

-- The kernel's machine for such programs: the answer of a program from an accumulator on, for the words
-- of seccomp_data by their offsets. LD loads a word, JEQ skips one of two counts of instructions, RET
-- answers.
pub record Bpf (u : Unix) : Type 0 where
  pub answer : List SockFilter → ℕ → (ℕ → ℕ) → ℕ
  pub answer-load :
      (jt jf k acc : ℕ) (p : List SockFilter) (word : ℕ → ℕ)
      → answer (record { code = u.load_word; jt = jt; jf = jf; k = k } ∷ p) acc word
        ≡ answer p (word k) word
  pub answer-jump :
      (jt jf k acc : ℕ) (p : List SockFilter) (word : ℕ → ℕ)
      → answer (record { code = u.jump_equal; jt = jt; jf = jf; k = k } ∷ p) acc word
        ≡ answer (drop (if acc == k then jt else jf) p) acc word
  pub answer-return :
      (jt jf k acc : ℕ) (p : List SockFilter) (word : ℕ → ℕ)
      → answer (record { code = u.return_value; jt = jt; jf = jf; k = k } ∷ p) acc word ≡ k

-- A number stands in a list.
unfoldable pub is_in : ℕ → List ℕ → Bool
is_in n [] = false
is_in n (m ∷ ms) = n == m || is_in n ms

module _ (u : Unix) (b : Bpf u) where
  deny_each-answer :
      (nrs : List ℕ) (nr : ℕ) (word : ℕ → ℕ)
      → b.answer (deny_each u nrs) nr word ≡ (if is_in nr nrs then u.deny_eperm else u.allow)
  unfolding deny_each is_in
  deny_each-answer [] nr word = b.answer-return 0 0 u.allow nr [] word
  deny_each-answer (n ∷ nrs) nr word = elim (Bool-cases (nr == n)) [
    | inl e ↦
        rw (b.answer-jump 0 1 n nr _ word, e)
          (b.answer-return 0 0 u.deny_eperm nr (deny_each u nrs) word)
    | inr e ↦ rw (b.answer-jump 0 1 n nr _ word, e) (deny_each-answer nrs nr word)
  ]

  seccomp_filter-length :
      (strict : Bool) → length (seccomp_filter u strict) % 2 ^ 16 ≡ length (seccomp_filter u strict)
  unfolding seccomp_filter deny_each
  seccomp_filter-length true = omega arith
  seccomp_filter-length false = omega arith

  -- The filter answers EPERM to exactly the numbers on the list, whatever else stands in seccomp_data,
  -- and its length fits the 16 bits that it is handed over in.
  pub seccomp_filter-answer :
      (strict : Bool) (acc : ℕ) (word : ℕ → ℕ)
      → (b.answer (seccomp_filter u strict) acc word
          ≡ (if is_in (word 0) (deny u strict) then u.deny_eperm else u.allow))
        × (length (seccomp_filter u strict) % 2 ^ 16 ≡ length (seccomp_filter u strict))
  unfolding seccomp_filter
  seccomp_filter-answer strict acc word = (
    rw (b.answer-load 0 0 0 acc (deny_each u (deny u strict)) word)
        (deny_each-answer (deny u strict) (word 0) word),
    seccomp_filter-length strict,
  )
