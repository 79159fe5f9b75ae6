-- ===== src/Git.antt =====
-- apps/api/plimsoll_api/git/client.py, with the git commands and the paths of pathlib that it and
-- its callers use. The commands themselves are parameters.
pub mod Paths
mod Tests
use bonerepo.Prelude.{
  ℕ, Bool, true, false, not, ◌&&◌, ◌||◌, Option, none, some, List, [], ◌∷◌, ◌++◌, leb, ◌==◌,
  if◌then◌else◌, length, all_of,
}
use bonerepo.Prelude.Texts.{Text, codes, text_eq, strip, is_empty, is_digit}
use bonerepo.Store.Rows.{CredentialKind, git_token, git_ssh_key, variable}
use bonerepo.Git.Paths.{PurePath, path_of, parent, as_posix}

pub record GitAccess : Type 0 where
  pub url : Text
  pub kind : Option CredentialKind
  pub secret : Option (List ℕ)

-- What `_workspace` gives git to log in with: nothing, a user and a password for the askpass
-- helper, or the contents of a key file.
pub data Login : Type 0 where
  anonymous : Login
  askpass : Text → Text → Login
  key_file : List ℕ → Login

-- The work tree that a checkout leaves: its place, `is_file`, and `read_text` with none for an
-- OSError.
pub record Checkout : Type 0 where
  pub root : PurePath
  pub is_file : PurePath → Bool
  pub read_text : PurePath → Option Text

-- The git commands, none for a GitError: the output of `ls-remote --exit-code url ref`, and the tree
-- after a sparse clone of the url, limited to a directory, at a commit. `decode` is bytes.decode.
pub record Git : Type 0 where
  pub decode : List ℕ → Text
  pub ls_remote : Login → Text → Text → Option Text
  pub checkout : Login → Text → Text → Text → Option Checkout

-- s.split(sep, 1)[0]
unfoldable pub before : ℕ → Text → Text
before sep [] = []
before sep (c ∷ s) = let rest = before sep s in if c == sep then [] else c ∷ rest

-- What is behind the first separator, none where there is none: str.partition.
unfoldable pub behind : ℕ → Text → Option Text
behind sep [] = none
behind sep (c ∷ s) = let rest = behind sep s in if c == sep then some s else rest

unfoldable pub token_login : Text → Option Text → Login
unfolding before
token_login secret none = askpass (codes "x-access-token") secret
token_login secret (some password) = askpass (before b':' secret) password

unfoldable pub ends_line : List ℕ → Bool
ends_line [] = false
ends_line (c ∷ []) = c == 10
ends_line (c ∷ d ∷ s) = ends_line (d ∷ s)

-- COMMIT_SHA
unfoldable pub is_hex_code : ℕ → Bool
unfolding is_digit
is_hex_code c = is_digit c || leb b'a' c && leb c b'f'

unfoldable pub is_commit_sha : Text → Bool
unfolding is_hex_code all_of
is_commit_sha s = length s == 40 && all_of is_hex_code s

-- What is left of `resolve_ref` behind the output of ls-remote.
unfoldable pub sha_in : Option Text → Option Text
unfolding before strip
sha_in none = none
sha_in (some output) =
    let sha = before 9 (strip (before 10 output)) in if length sha == 40 then some sha else none

module _ (git : Git) where
  unfoldable pub login_by : Option CredentialKind → Option (List ℕ) → Login
  unfolding token_login behind ends_line
  login_by (some git_token) (some secret) =
      token_login (git.decode secret) (behind b':' (git.decode secret))
  login_by (some git_ssh_key) (some secret) =
      key_file (if ends_line secret then secret else secret ++ 10 ∷ [])
  login_by _ _ = anonymous

  -- `_workspace`
  unfoldable pub login : GitAccess → Login
  unfolding login_by
  login access = login_by access.kind access.secret

  -- None is the GitError.
  unfoldable pub resolve_ref : GitAccess → Text → Option Text
  unfolding is_commit_sha strip sha_in login
  resolve_ref access ref =
      if is_commit_sha (strip ref)
      then some (strip ref)
      else sha_in (git.ls_remote (login access) access.url ref)

  unfoldable pub fetch_plan : GitAccess → Text → Text → Option Checkout
  unfolding as_posix parent path_of login
  fetch_plan access sha plan_path =
      git.checkout (login access) access.url (as_posix (parent (path_of plan_path))) sha
