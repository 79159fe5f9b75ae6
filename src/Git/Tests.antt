-- ===== src/Git/Tests.antt =====
-- Runs of the client on small texts.
use bonerepo.Prelude.{◌≡◌, refl, none, some}
use bonerepo.Prelude.Texts.{Text, codes}
use bonerepo.Store.Rows.{git_token}
use bonerepo.Git.{GitAccess, Git, askpass, login, resolve_ref}
use bonerepo.Git.Paths.{path_of, parent, as_posix}

abbrev sha : Text
sha = codes "0123456789abcdef0123456789abcdef01234567"

abbrev git : Git
git = record {
  decode = λ s. s;
  ls_remote = λ _ _ _. some (codes "0123456789abcdef0123456789abcdef01234567\trefs/heads/main\n");
  checkout = λ _ _ _ _. none;
}

abbrev access : GitAccess
access = record { url = codes "https://h/r"; kind = some git_token; secret = some (codes "me:s:1") }

splits_at_first_colon : login git access ≡ askpass (codes "me") (codes "s:1")
unfolding login
splits_at_first_colon = refl

main_resolves : resolve_ref git access (codes "main") ≡ some sha
unfolding resolve_ref
main_resolves = refl

directory_of_plan : as_posix (parent (path_of (codes "perf/./a//p.jmx"))) ≡ codes "perf/a"
unfolding as_posix parent path_of
directory_of_plan = refl

directory_of_root_plan : as_posix (parent (path_of (codes "p.jmx"))) ≡ codes "."
unfolding as_posix parent path_of
directory_of_root_plan = refl
