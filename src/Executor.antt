-- ===== src/Executor.antt =====
-- The reports of restic on what it could not back up (`BackupFailureDetails` of
-- apps/resticpal-service/src/executor.rs, `is_safe_backup_failed_item` of crates/resticpal-core/src/status.rs),
-- and what the code asks of restic's messages.
pub mod Output
pub mod Lines
pub mod Broken
pub mod Process
pub mod Runs
pub mod Honest
pub mod Success
pub mod Details
pub mod Shown
use resticpal.Prelude.{
  ℕ, ◌+◌, ◌-◌, ◌*◌, ◌^◌, Bool, true, false, not, ◌&&◌, ◌||◌, List, [], ◌∷◌, ◌++◌, String, ltb, leb,
  ◌==◌, if◌then◌else◌, any, length, is_empty, min, String_discrete, Option, some, none,
}
use resticpal.Text.{Bytes, codes, byte_len, to_ascii_lowercase}
use resticpal.Config.Management.{is_text}
use resticpal.Service.Lifecycle.{BackupFailureDetails}

abbrev pub max_backup_failed_items : ℕ
max_backup_failed_items = 100

abbrev pub max_backup_failed_item_bytes : ℕ
max_backup_failed_item_bytes = 4 * 1024

-- `char::is_control`, and the marks that turn the direction of a text.
abbrev pub is_unsafe : ℕ → Bool
is_unsafe c =
    ltb c 0x20
    || (leb 0x7f c && leb c 0x9f || (leb 0x202a c && leb c 0x202e || leb 0x2066 c && leb c 0x2069))

unfoldable pub is_safe_backup_failed_item : String → Bool
is_safe_backup_failed_item item =
    not (is_empty (codes item))
    && (leb (byte_len item) max_backup_failed_item_bytes && not (any is_unsafe (codes item)))

-- `saturating_add` on a `u64`.
unfoldable pub saturating_add : ℕ → ℕ → ℕ
saturating_add a b = min (a + b) (2 ^ 64 - 1)

abbrev pub holds : String → List String → Bool
holds item items = any (λ existing. is_text existing item) items

abbrev pub no_details : BackupFailureDetails
no_details = record { items = []; omitted = 0 }

unfoldable pub push : BackupFailureDetails → String → BackupFailureDetails
push details item =
    if holds item details.items
    then details
    else if not (is_safe_backup_failed_item item)
        || leb max_backup_failed_items (length details.items)
    then record details { omitted = saturating_add details.omitted 1 }
    else record details { items = details.items ++ (item ∷ []) }

unfoldable pub push_all : BackupFailureDetails → List String → BackupFailureDetails
push_all details [] = details
push_all details (item ∷ items) = push_all (push details item) items

unfoldable pub merge : BackupFailureDetails → BackupFailureDetails → BackupFailureDetails
merge details other =
    let pushed = push_all details other.items in
    record pushed { omitted = saturating_add pushed.omitted other.omitted }

-- `str::starts_with` and `str::contains`, on the characters of texts.
unfoldable pub begins : List ℕ → List ℕ → Bool
begins text [] = true
begins [] (p ∷ pattern) = false
begins (c ∷ text) (p ∷ pattern) = c == p && begins text pattern

unfoldable pub contains : List ℕ → List ℕ → Bool
contains [] pattern = is_empty pattern
contains (c ∷ text) pattern = let rest = contains text pattern in begins (c ∷ text) pattern || rest

unfoldable pub lowercase : List ℕ → List ℕ
lowercase [] = []
lowercase (c ∷ text) = to_ascii_lowercase c ∷ lowercase text

-- `message.contains(a) || message.contains(b) || ..`.
abbrev mentions : List ℕ → List String → Bool
mentions message patterns = any (λ pattern. contains message (codes pattern)) patterns

-- The message is restic's error output. The code reads it as a text with its broken parts replaced, which
-- changes no ASCII, so the bytes are searched instead.
unfoldable pub classify_stderr : Bytes → Option String
classify_stderr stderr =
    let message = lowercase stderr in
    if mentions message (
      "vss error:" ∷ "failed to create snapshot for [" ∷ "failed to delete vss snapshot"
      ∷ "volume shadow copy service" ∷ "shadow copy provider" ∷ [])
    then some "restic_vss_unavailable"
    else if mentions message ("access denied" ∷ "permission denied" ∷ "insufficient privilege" ∷ [])
    then some "restic_permission_denied"
    else if mentions message
        ("already locked" ∷ "repository is locked" ∷ "unable to create lock" ∷ [])
    then some "restic_repository_locked"
    else if mentions message
        ("unauthorized" ∷ "authentication failed" ∷ "invalid access key" ∷ "wrong password" ∷ [])
    then some "restic_authentication_failed"
    else if mentions message (
        "connection refused" ∷ "connection reset" ∷ "timed out" ∷ "timeout" ∷ "no such host"
        ∷ "name resolution" ∷ [])
    then some "restic_repository_unreachable"
    else if mentions message
        ("no such file or directory" ∷ "cannot find the path" ∷ "path does not exist" ∷ [])
    then some "restic_source_unavailable"
    else none

-- The message is what restic says of an error, in its characters.
unfoldable pub is_vss_fallback_error : String → Bool
is_vss_fallback_error message =
    let lower = lowercase (codes message) in
    contains lower (codes "failed to create snapshot for [")
    || begins lower (codes "vss error: getsnapshotproperties()")
      && contains lower (codes "mount point")

unfoldable pub is_vss_cleanup_error : String → Bool
is_vss_cleanup_error message =
    contains (lowercase (codes message)) (codes "failed to delete vss snapshot")
