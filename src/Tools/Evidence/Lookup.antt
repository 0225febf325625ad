-- ===== src/Tools/Evidence/Lookup.antt =====
-- What is read back of the evidence (crates/fx-core/src/read_evidence.rs, lines 34 to 54).
use fx_rs.Base.{◌≡◌, refl, none, some, [], ◌∷◌, Text, if◌then◌else◌, arith}
use fx_rs.Permission.FilePath.{path_eq}
use fx_rs.Permission.FilePath.Equal.{path_eq_left, path_eq_right}
use fx_rs.Tools.Evidence.{ReadEvidence, Entries, lookup, remove, record_evidence}

pub lookup-remove :
    (entries : Entries) (path other : Text)
    → lookup (remove entries path) other
      ≡ (if path_eq path other then none else lookup entries other)
unfolding lookup remove
lookup-remove [] path other = ground arith
lookup-remove ((key, evidence) ∷ entries) path other = ground (
  arith,
  lookup-remove entries path other,
  path_eq_left key path other,
  path_eq_right key path other,
)

lookup-cons :
    (key : Text) (evidence : ReadEvidence) (entries : Entries) (other : Text)
    → lookup ((key, evidence) ∷ entries) other
      ≡ (if path_eq key other then some evidence else lookup entries other)
unfolding lookup
lookup-cons key evidence entries other = refl

pub lookup-record_evidence :
    (entries : Entries) (path other : Text) (evidence : ReadEvidence)
    → lookup (record_evidence entries path evidence) other
      ≡ (if path_eq path other then some evidence else lookup entries other)
unfolding record_evidence
lookup-record_evidence entries path other evidence =
    ground (
      arith,
      lookup-cons path evidence (remove entries path) other,
      lookup-remove entries path other,
    )
