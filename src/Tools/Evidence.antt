-- ===== src/Tools/Evidence.antt =====
-- The evidence of reads (crates/fx-core/src/read_evidence.rs). The map is an association list, of
-- which the first entry of a path counts. Paths are keys by their components, as `PathBuf` is.
pub mod Lookup
pub mod History
use fx_rs.Base.{
  ℕ, ◌≡◌, refl, Bool, true, false, Option, none, some, List, [], ◌∷◌, Text, text_eq, if◌then◌else◌,
  arith, text_eq_sound, text_eq_refl,
}
use mathlib.Core.Path.{subst}
use fx_rs.Base.Int.{ℤ}
use fx_rs.Permission.FilePath.{path_eq}

pub record ReadEvidence : Type 0 where
  pub modified_ns : ℤ
  pub content_hash : List ℕ
  pub model_view_covers_full_file : Bool
  pub snapshot_covers_full_file : Bool

abbrev pub Entries : Type 0
Entries = List (Text × ReadEvidence)

unfoldable pub lookup : Entries → Text → Option ReadEvidence
lookup [] path = none
lookup ((key, evidence) ∷ entries) path =
    if path_eq key path then some evidence else lookup entries path

unfoldable pub remove : Entries → Text → Entries
remove [] path = []
remove ((key, evidence) ∷ entries) path =
    let rest = remove entries path in if path_eq key path then rest else (key, evidence) ∷ rest

unfoldable pub record_evidence : Entries → Text → ReadEvidence → Entries
record_evidence entries path evidence = (path, evidence) ∷ remove entries path

-- A write of the store.
pub data Write : Type 0 where
  records : Text → ReadEvidence → Write
  removes : Text → Write

unfoldable pub apply : Write → Entries → Entries
apply (records path evidence) entries = record_evidence entries path evidence
apply (removes path) entries = remove entries path

unfoldable pub run : List Write → Entries → Entries
run [] entries = entries
run (write ∷ writes) entries = run writes (apply write entries)
