-- ===== src/Utils/Path.antt =====
-- Utils::CutFilePath against the parts of a path.
use grpc_push_sdk.Common.{
  ℕ, ◌≡◌, refl, false, List, [], ◌∷◌, ◌++◌, ◌==◌, if◌then◌else◌, ==_refl, All, ◌∙◌,
}
use grpc_push_sdk.Utils.{cut_from, cut_file_path}

abbrev pub Lacks : ℕ → List ℕ → Type 0
Lacks segment s = All (λ c. (c == segment) ≡ false) s

cut_from-Lacks : (segment : ℕ) (best s : List ℕ) → Lacks segment s → cut_from segment best s ≡ best
unfolding cut_from
cut_from-Lacks segment best [] h = refl
cut_from-Lacks segment best (c ∷ s) h = rw h.0 (cut_from-Lacks segment best s h.1)

cut_from-append :
    (segment : ℕ) (best dir file : List ℕ)
    → Lacks segment file
    → cut_from segment best (dir ++ segment ∷ file) ≡ file
unfolding cut_from
cut_from-append segment best [] file h =
    cut_from-Lacks segment (if segment == segment then file else best) file h
    ∙ rw (==_refl segment) refl
cut_from-append segment best (c ∷ dir) file h =
    cut_from-append segment (if c == segment then dir ++ segment ∷ file else best) dir file h

-- CutFilePath gives the name of a file without its directory: what follows the last separator, and
-- the whole of a path that has none.
pub cut_file_path-append :
    (segment : ℕ) (dir file : List ℕ)
    → Lacks segment file
    → (cut_file_path segment (dir ++ segment ∷ file) ≡ file) × (cut_file_path segment file ≡ file)
unfolding cut_file_path
cut_file_path-append segment dir file h =
    (cut_from-append segment (dir ++ segment ∷ file) dir file h, cut_from-Lacks segment file file h)
