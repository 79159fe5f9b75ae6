-- ===== src/Contracts/Credentials.antt =====
-- plimsoll_contracts/credentials.py. The secret is the bytes of its encoding.
use bonerepo.Prelude.{ℕ, List}
use bonerepo.Prelude.Texts.{Text}
use bonerepo.Store.Rows.{CredentialKind}

pub record CredentialCreate : Type 0 where
  pub name : Text
  pub kind : CredentialKind
  pub secret : List ℕ
