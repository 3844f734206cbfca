-- ===== src/Tests/Workspace.antt =====
-- A run of the write into a workspace, on a kernel that opens all and writes one byte at a time.
use sandkasten.Base.{◌≢◌, some, [], length}
use sandkasten.Base.Text.{codes}
use sandkasten.Session.WorkspaceFiles.{
  FileKernel, opened, made, out_of_fuel, refused, write_no_symlinks,
}
use sandkasten.Session.WorkspaceFiles.Calls.{AllLookUp}
use sandkasten.Session.WorkspaceFiles.Plain.{write_no_symlinks-LooksUpPlain}

abbrev kernel : FileKernel
kernel = record { opens = λ h. opened (length h); makes = λ h. made; writes = λ h. some 1 }

write_no_symlinks-LooksUpPlain_example :
    AllLookUp kernel
      (codes "/w")
      (write_no_symlinks kernel (codes "/w") (codes "a/b") (codes "xy") []).1
    × ((write_no_symlinks kernel (codes "/w") (codes "a/b") (codes "xy") []).0
        ≢ refused out_of_fuel)
write_no_symlinks-LooksUpPlain_example =
    write_no_symlinks-LooksUpPlain kernel (codes "/w") (codes "a/b") (codes "xy")
