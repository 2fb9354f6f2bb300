-- ===== src/Runtime/Secrets.antt =====
-- The credential changes of `update_repository` in apps/resticpal-service/src/runtime/ipc.rs.
use resticpal.Prelude.{
  ℕ, ◌+◌, Bool, true, false, ◌||◌, Option, none, some, List, [], ◌∷◌, ◌++◌, String, ltb, ◌==◌, any,
  map, if◌then◌else◌, String_discrete,
}
use resticpal.Config.{
  SecretEnvironmentVariable, restic_password, aws_access_key_id, aws_secret_access_key,
  aws_session_token, azure_account_key, b2_account_key, google_application_credentials,
  rclone_config_password, SecretRefs,
}
use resticpal.Service.Effect.{Effect, put_credential, remove_credential}

-- `RepositorySecretUpdate` of crates/resticpal-protocol/src/lib.rs. The value only goes to the store.
pub data RepositorySecretUpdate : Type 0 where
  set : SecretEnvironmentVariable → String → RepositorySecretUpdate
  remove : SecretEnvironmentVariable → RepositorySecretUpdate

abbrev pub reference_prefix : SecretEnvironmentVariable → String
reference_prefix restic_password = "restic-password"
reference_prefix aws_access_key_id = "aws-access-key-id"
reference_prefix aws_secret_access_key = "aws-secret-access-key"
reference_prefix aws_session_token = "aws-session-token"
reference_prefix azure_account_key = "azure-account-key"
reference_prefix b2_account_key = "b2-account-key"
reference_prefix google_application_credentials = "google-credentials"
reference_prefix rclone_config_password = "rclone-config-password"

-- The place of a variable in the derived order.
abbrev pub rank : SecretEnvironmentVariable → ℕ
rank restic_password = 0
rank aws_access_key_id = 1
rank aws_secret_access_key = 2
rank aws_session_token = 3
rank azure_account_key = 4
rank b2_account_key = 5
rank google_application_credentials = 6
rank rclone_config_password = 7

abbrev pub variable_of : RepositorySecretUpdate → SecretEnvironmentVariable
variable_of (set variable value) = variable
variable_of (remove variable) = variable

-- `BTreeMap::get`, `insert` and `remove`, on entries in key order.
unfoldable pub get_ref : SecretEnvironmentVariable → SecretRefs → Option String
get_ref v [] = none
get_ref v ((w, r) ∷ refs) = let rest = get_ref v refs in if rank v == rank w then some r else rest

unfoldable pub insert_ref : SecretEnvironmentVariable → String → SecretRefs → SecretRefs
insert_ref v reference [] = (v, reference) ∷ []
insert_ref v reference ((w, r) ∷ refs) =
    let rest = insert_ref v reference refs in
    if ltb (rank v) (rank w)
    then (v, reference) ∷ (w, r) ∷ refs
    else if rank v == rank w
    then (v, reference) ∷ refs
    else (w, r) ∷ rest

unfoldable pub remove_ref : SecretEnvironmentVariable → SecretRefs → SecretRefs
remove_ref v [] = []
remove_ref v ((w, r) ∷ refs) =
    let rest = remove_ref v refs in if rank v == rank w then refs else (w, r) ∷ rest

-- Whether some variable is changed twice: `!seen_variables.insert(variable)`.
unfoldable pub has_duplicate : List ℕ → List RepositorySecretUpdate → Bool
unfolding any
has_duplicate seen [] = false
has_duplicate seen (update ∷ updates) =
    let r = rank (variable_of update) in any (λ s. s == r) seen || has_duplicate (r ∷ seen) updates

abbrev same_text : String → String → Bool
same_text s t = elim (String_discrete s t) [ yes _ ↦ true | no _ ↦ false ]

-- A set of references, in the order in which they came in.
abbrev pub retire : Option String → List String → List String
retire none retired = retired
retire (some old) retired = if any (same_text old) retired then retired else retired ++ (old ∷ [])

-- What the loop over the updates carries along.
pub record SecretChange : Type 0 where
  pub effective : SecretRefs
  pub local : SecretRefs
  pub created : List String
  pub retired : List String
  pub asked : List Effect

abbrev set_secret : SecretEnvironmentVariable → String → SecretChange → SecretChange
set_secret variable reference change = record change {
  effective = insert_ref variable reference change.effective;
  local = insert_ref variable reference change.local;
  created = change.created ++ (reference ∷ []);
  retired = retire (get_ref variable change.effective) change.retired;
}

abbrev remove_secret : SecretEnvironmentVariable → SecretChange → SecretChange
remove_secret variable change = record change {
  effective = remove_ref variable change.effective;
  local = remove_ref variable change.local;
  retired = retire (get_ref variable change.effective) change.retired;
}

abbrev ask_put : SecretEnvironmentVariable → SecretChange → SecretChange
ask_put variable change = record change {
  asked = change.asked ++ (put_credential (reference_prefix variable) ∷ []);
}

-- The loop; `n` counts the calls of `put_new`, and the answer says whether all of them succeeded.
unfoldable pub change_secrets :
    (ℕ → Option String) → ℕ → List RepositorySecretUpdate → SecretChange → SecretChange × Bool
change_secrets put_new n [] change = (change, true)
change_secrets put_new n (remove variable ∷ updates) change =
    change_secrets put_new n updates (remove_secret variable change)
change_secrets put_new n (set variable value ∷ updates) change = elim (put_new n) [
  | none ↦ (ask_put variable change, false)
  | some reference ↦
      change_secrets put_new (n + 1) updates
        (set_secret variable reference (ask_put variable change))
]

-- `cleanup_credentials`, and the removal of the retired references at the end.
abbrev pub remove_credentials : List String → List Effect
remove_credentials references = map (λ reference. remove_credential reference) references

-- `retired_references.retain(..)`: a reference that is still in use stays.
unfoldable pub still_retired : SecretRefs → List String → List String
unfolding any
still_retired effective [] = []
still_retired effective (reference ∷ references) =
    let rest = still_retired effective references in
    if any (λ entry. same_text entry.1 reference) effective then rest else reference ∷ rest
