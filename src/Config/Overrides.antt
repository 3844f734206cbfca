-- ===== src/Config/Overrides.antt =====
-- What the environment changes of a configuration.
use sandkasten.Base.{
  ◌≡◌, refl, ap, ◌∙◌, ℕ, true, false, Option, none, some, [], Bool-cases, inl, inr, arith,
}
use sandkasten.Base.Text.{Bytes, codes, str_eq}
use sandkasten.Config.{
  Config, default_config, is_one_of, false_words, parse_bool, or_old, override, apply_env_overrides,
  absent, load, overridden,
}

override_twice :
    {A : Type 0} (parse : Bytes → Option A) (v : Bytes) (old : A)
    → override parse v (override parse v old) ≡ override parse v old
unfolding override
override_twice {A = A} parse v old = elim (Bool-cases (str_eq v [])) [
  | inl e ↦ rw e refl
  | inr e ↦ rw e (again (parse v))
]
  where
    again : (o : Option A) → or_old (or_old old o) o ≡ or_old old o
    again none = refl
    again (some a) = refl

override_unset :
    {A : Type 0} (parse : Bytes → Option A) (v : Bytes) (old : A)
    → v ≡ []
    → override parse v old ≡ old
unfolding override str_eq
override_unset parse v old e = rw e refl

override-parse_bool :
    (v : Bytes) → override parse_bool v true ≡ false → is_one_of v false_words ≡ true
unfolding override parse_bool
override-parse_bool v h = ground arith

module _ (getenv : Bytes → Bytes) (parse_float : Bytes → Option ℕ) where
  -- applyEnvOverrides of a configuration that it was applied to changes nothing more.
  overrides_again :
      (cfg : Config)
      → apply_env_overrides getenv parse_float (apply_env_overrides getenv parse_float cfg)
        ≡ apply_env_overrides getenv parse_float cfg
  unfolding apply_env_overrides
  overrides_again cfg = simp override_twice refl

  -- With no variable set, applyEnvOverrides changes no configuration; and with whatever variables set,
  -- applying it a second time changes nothing more.
  pub apply_env_overrides_twice :
      (cfg : Config) (unset : Bytes → Bytes)
      → ((name : Bytes) → unset name ≡ [])
      → (apply_env_overrides unset parse_float cfg ≡ cfg)
        × (apply_env_overrides getenv parse_float (apply_env_overrides getenv parse_float cfg)
            ≡ apply_env_overrides getenv parse_float cfg)
  unfolding apply_env_overrides
  apply_env_overrides_twice cfg unset h = (simp (override_unset, h) refl, overrides_again cfg)

  -- A daemon that finds no YAML file runs with a read-only root file system, unless the variable
  -- SANDKASTEN_READONLY_ROOTFS is spelled as one of the words that mean false: another word, like
  -- "no" or "off", does not make the root file system writable.
  pub load-readonly_rootfs :
      (unmarshal : Bytes → Config → Option Config) (cfg : Config)
      → load getenv parse_float unmarshal absent ≡ some cfg
      → cfg.readonly_rootfs ≡ false
      → is_one_of (getenv (codes "SANDKASTEN_READONLY_ROOTFS")) false_words ≡ true
  unfolding load apply_env_overrides overridden
  load-readonly_rootfs unmarshal cfg h r =
      let e : apply_env_overrides getenv parse_float default_config ≡ cfg = cc in
      override-parse_bool (getenv (codes "SANDKASTEN_READONLY_ROOTFS"))
        (ap (λ (c : Config). c.readonly_rootfs) e ∙ r)
