-- ===== src/Spawn/Child.antt =====
-- dpty_exec_child of packages/dart_pty_macos/native/PtyExecChild.c: the child before its program.
use dart_terminal.Base.{
  ℕ, ◌≡◌, refl, sym, subst, ◌⊎◌, inl, inr, Option, none, some, List, [], ◌∷◌, if◌then◌else◌,
}
use dart_terminal.Config.{CString}
use dart_terminal.Spawn.Table.{Descriptor, close_open, Answer, done, failed}
use dart_terminal.Spawn.Pipe.{IsReady, close_read-eq}

-- The program that runs in the child: what execve was given, the directory, and the descriptors that
-- are still open.
pub record Program : Type 0 where
  pub executable : CString
  pub argv : List CString
  pub envp : List CString
  pub directory : Option CString
  pub descriptors : List Descriptor

-- The program runs, or the child has written an error number to the pipe and exits with a code.
pub data ChildEnd : Type 0 where
  runs : Program → ChildEnd
  exits : (code written : ℕ) → ChildEnd

-- execve closes the descriptors that are marked.
abbrev pub close_marked : List Descriptor → List Descriptor
close_marked [] = []
close_marked (d ∷ ds) = let rest = close_marked ds in if d.close_on_exec then rest else d ∷ rest

-- A refused execve, or the program.
abbrev pub exec_program : Answer → Program → ChildEnd
exec_program (failed e) p = exits 127 e
exec_program done p = runs (record p { descriptors = close_marked p.descriptors })

abbrev pub in_directory : Answer → Answer → Program → ChildEnd
in_directory (failed e) execve p = exits 126 e
in_directory done execve p = exec_program execve p

abbrev pub change_directory : Answer → Answer → Option CString → Program → ChildEnd
change_directory chdir execve none p = exec_program execve p
change_directory chdir execve (some d) p =
    in_directory chdir execve (record p { directory = some d })

-- `directory` none is a null pointer: the program runs where the parent does.
unfoldable pub dpty_exec_child :
    (chdir execve : Answer) (read : ℕ) (executable : CString) (argv envp : List CString)
    (directory : Option CString)
    → List Descriptor
    → ChildEnd
dpty_exec_child chdir execve read executable argv envp directory ds =
    change_directory chdir execve directory (record {
      executable = executable;
      argv = argv;
      envp = envp;
      directory = none;
      descriptors = close_open read ds;
    })

-- The child is where it is to be: no directory was asked for, or the call to enter it worked.
abbrev pub IsEntered : Answer → Option CString → Type 0
IsEntered chdir directory = (directory ≡ none) ⊎ (chdir ≡ done)

-- The three ends of a child that is to become `wanted`.
pub data IsReported (chdir execve : Answer) (wanted : Program) : ChildEnd → Type 0 where
  no_directory :
      {e : ℕ} {d : CString}
      → wanted.directory ≡ some d
      → chdir ≡ failed e
      → IsReported chdir execve wanted (exits 126 e)
  no_program :
      {e : ℕ}
      → IsEntered chdir wanted.directory
      → execve ≡ failed e
      → IsReported chdir execve wanted (exits 127 e)
  started :
      IsEntered chdir wanted.directory
      → execve ≡ done
      → IsReported chdir execve wanted (runs wanted)

-- The program with what execve leaves open.
exec_program-IsReported :
    (chdir execve : Answer) (p wanted : Program)
    → IsEntered chdir wanted.directory
    → record p { descriptors = close_marked p.descriptors } ≡ wanted
    → IsReported chdir execve wanted (exec_program execve p)
exec_program-IsReported chdir (failed e) p wanted h c = no_program h refl
exec_program-IsReported chdir done p wanted h c =
    subst (λ q. IsReported chdir done wanted (runs q)) (sym c) (started h refl)

-- In a child that inherited the prepared pipe beside the descriptors `old`: if a directory is asked
-- for and cannot be entered, the child writes that call's error number and exits with 126; if it is
-- where it is to be but the program cannot be run, the child writes the error number of execve and
-- exits with 127; otherwise it is where it is to be, and runs exactly the program asked for, with its
-- arguments and its environment, of the descriptors with those of `old` that are not closed on exec,
-- so with neither end of the pipe.
pub dpty_exec_child-IsReported :
    (chdir execve : Answer) (r w : ℕ) (executable : CString) (argv envp : List CString)
    (directory : Option CString) (ds old : List Descriptor)
    → IsReady old r w ds
    → IsReported chdir execve
        (record {
          executable = executable;
          argv = argv;
          envp = envp;
          directory = directory;
          descriptors = close_marked old;
        })
        (dpty_exec_child chdir execve r executable argv envp directory ds)
unfolding dpty_exec_child
dpty_exec_child-IsReported chdir execve r w executable argv envp none ds old (p, hr, hw, cr, cw) =
    exec_program-IsReported chdir execve _ _ (inl refl) (rw (close_read-eq r w ds old p, cw) refl)
dpty_exec_child-IsReported (failed e) execve r w executable argv envp (some d) ds old ready =
    no_directory refl refl
dpty_exec_child-IsReported done execve r w executable argv envp (some d) ds old
      (p, hr, hw, cr, cw) =
    exec_program-IsReported done execve _ _ (inr refl) (rw (close_read-eq r w ds old p, cw) refl)
