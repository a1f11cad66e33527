-- ===== src/Fs/DirEntries/Visit.antt =====
-- What a walk over the entries of a directory means: the callback on each entry in its order,
-- until it fails or wants no more.
use erofs_utils_rust.Base.{
  [], ◌∷◌, ◌++◌, List, Bool, true, false, IoResult, ok, ◌>>=◌, ◌≡◌, refl, err, panic,
}
use erofs_utils_rust.Build.Dir.{DirChild}
use erofs_utils_rust.Fs.DirEntries.{Callback}

module _ {S : Type 0} (cb : Callback S) where
  unfoldable pub visit : List DirChild → S → IoResult (S × Bool)
  visit [] s = ok (s, true)
  visit (e ∷ es) s = do
    (s', more) ← cb s e.nid e.file_type e.name
    elim more [ true ↦ visit es s' | false ↦ ok (s', false) ]

  -- Two lists in a row, the second only if more is wanted.
  abbrev pub visit_rest : List DirChild → S × Bool → IoResult (S × Bool)
  visit_rest es (s, more) = elim more [ true ↦ visit es s | false ↦ ok (s, false) ]

  pub visit-append :
      (xs ys : List DirChild) (s : S) → visit (xs ++ ys) s ≡ (visit xs s >>= visit_rest ys)
  unfolding visit
  visit-append [] ys s = refl
  visit-append (e ∷ es) ys s = after (cb s e.nid e.file_type e.name) (visit-append es ys)
    where
      after :
          (r : IoResult (S × Bool))
          → ((t : S) → visit (es ++ ys) t ≡ (visit es t >>= visit_rest ys))
          → (r >>= visit_rest (es ++ ys)) ≡ ((r >>= visit_rest es) >>= visit_rest ys)
      after (ok (t, true)) ih = ih t
      after (ok (t, false)) ih = refl
      after (err x) ih = refl
      after panic ih = refl
