-- ===== src/Archive/RoundTrip/Written.antt =====
-- The entries that an export wrote.
use rookery.Base.{
  ◌≡◌, refl, Option, none, some, List, [], ◌∷◌, ◌++◌, arith, Text, sym, ap, ◌∙◌, subst, Result, ok,
  err,
}
use rookery.Store.{Eq_path, Files, read_blob}
use rookery.Archive.{Entry}
use rookery.Archive.Export.{
  entry, blob_name, ExportFaults, and_entry, write_entries, write_read, write_blobs,
}
use rookery.Archive.RoundTrip.Blobs.{Wrote}

-- Without an error, each blob was read from disk and written as an entry.
pub write_blobs-Wrote :
    (f : ExportFaults) (fs : Files) (ds : List Text) (bs : List Entry)
    → write_blobs f fs ds ≡ ok bs
    → Wrote fs ds bs
unfolding write_blobs
write_blobs-Wrote f fs [] [] h = tt
write_blobs-Wrote f fs [] (x ∷ bs) h = absurd (cc)
write_blobs-Wrote f fs (d ∷ ds) bs h =
    go (f.read_err d) (read_blob d fs) refl (f.write_err (blob_name d)) (write_blobs f fs ds)
      (write_blobs-Wrote f fs ds) h
  where
    go :
        (e : Option Text) (o : Option Text)
        → read_blob d fs ≡ o
        → (w : Option Text) (rest : Result (List Entry))
        → ((bs : List Entry) → rest ≡ ok bs → Wrote fs ds bs)
        → write_read (λ _. w) d e o rest ≡ ok bs
        → Wrote fs (d ∷ ds) bs
    go (some e) o is w rest later h = cc
    go none none is w rest later h = cc
    go none (some b) is (some e) rest later h = cc
    go none (some b) is none (err e) later h = cc
    go none (some b) is none (ok xs) later h =
        let same : entry (blob_name d) b ∷ xs ≡ bs = ground arith in
        subst (Wrote fs (d ∷ ds)) same (b, refl, is, later xs refl)

pub write_entries_ok :
    (f : Text → Option Text) (xs : List Entry) (rest : Result (List Entry)) (out : List Entry)
    → write_entries f xs rest ≡ ok out
    → (bs : List Entry) × (rest ≡ ok bs) × (out ≡ xs ++ bs)
unfolding write_entries
write_entries_ok f [] rest out h = (out, h, refl)
write_entries_ok f (x ∷ xs) rest out h =
    go (f x.name) (write_entries f xs rest) (write_entries_ok f xs rest) h
  where
    go :
        (e : Option Text) (r : Result (List Entry))
        → ((out : List Entry) → r ≡ ok out → (bs : List Entry) × (rest ≡ ok bs) × (out ≡ xs ++ bs))
        → and_entry x e r ≡ ok out
        → (bs : List Entry) × (rest ≡ ok bs) × (out ≡ x ∷ (xs ++ bs))
    go (some e) r later h = cc
    go none (err e) later h = cc
    go none (ok ys) later h =
        let (bs, is, same) = later ys refl in
        let cons : x ∷ ys ≡ out = ground arith in (bs, is, sym cons ∙ ap (λ zs. x ∷ zs) same)
