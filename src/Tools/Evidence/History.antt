-- ===== src/Tools/Evidence/History.antt =====
-- What is read back after any sequence of writes (crates/fx-core/src/read_evidence.rs, lines 33 to 55).
use fx_rs.Base.{
  ◌≡◌, refl, ap, ◌∙◌, false, Bool-cases, inl, inr, Option, none, some, List, [], ◌∷◌, ◌++◌, Text,
  if◌then◌else◌,
}
use fx_rs.Permission.FilePath.{components, path_eq}
use fx_rs.Permission.FilePath.Equal.{path_eq_sound, path_eq_complete}
use fx_rs.Tools.Evidence.{ReadEvidence, Entries, lookup, Write, apply, run}
use fx_rs.Tools.Evidence.Lookup.{lookup-record_evidence, lookup-remove}

abbrev pub path_of : Write → Text
path_of (Write.records path evidence) = path
path_of (Write.removes path) = path

-- What a write leaves behind at its path.
abbrev pub content : Write → Option ReadEvidence
content (Write.records path evidence) = some evidence
content (Write.removes path) = none

-- No write is at a path with the components of this one.
abbrev pub Untouched : Text → List Write → Type 0
Untouched path [] = Unit {0}
Untouched path (write ∷ writes) =
    ¬ (components (path_of write) ≡ components path) × Untouched path writes

lookup-apply :
    (write : Write) (entries : Entries) (path : Text)
    → lookup (apply write entries) path
      ≡ (if path_eq (path_of write) path then content write else lookup entries path)
unfolding apply
lookup-apply (Write.records at evidence) entries path =
    lookup-record_evidence entries at path evidence
lookup-apply (Write.removes at) entries path = lookup-remove entries at path

path_eq_other : (s t : Text) → ¬ (components s ≡ components t) → path_eq s t ≡ false
path_eq_other s t n = elim (Bool-cases (path_eq s t)) [
  | inl same ↦ absurd (n (path_eq_sound s t same))
  | inr other ↦ other
]

run-Untouched :
    (writes : List Write) (entries : Entries) (path : Text)
    → Untouched path writes
    → lookup (run writes entries) path ≡ lookup entries path
unfolding run
run-Untouched [] entries path h = refl
run-Untouched (write ∷ writes) entries path (n, h) =
    run-Untouched writes (apply write entries) path h
    ∙ rw (lookup-apply write entries path, path_eq_other (path_of write) path n)

run-append :
    (before after : List Write) (write : Write) (entries : Entries)
    → run (before ++ (write ∷ after)) entries ≡ run after (apply write (run before entries))
unfolding run
run-append [] after write entries = refl
run-append (first ∷ before) after write entries =
    run-append before after write (apply first entries)

-- Whatever is recorded and removed before, the last write at a path decides what is read back of it,
-- paths being the same where their components are: the evidence recorded, or none behind a removal.
-- Writes at other paths leave the evidence of the path as it is.
pub lookup-run :
    (before after : List Write) (write : Write) (entries : Entries) (path : Text)
    → components (path_of write) ≡ components path
    → Untouched path after
    → (lookup (run (before ++ (write ∷ after)) entries) path ≡ content write)
      × (lookup (run after entries) path ≡ lookup entries path)
lookup-run before after write entries path same untouched = (
  ap (λ es. lookup es path) (run-append before after write entries)
      ∙ run-Untouched after (apply write (run before entries)) path untouched
      ∙ rw (
        lookup-apply write (run before entries) path,
        path_eq_complete (path_of write) path same,
      ),
  run-Untouched after entries path untouched,
)
