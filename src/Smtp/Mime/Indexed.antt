-- ===== src/Smtp/Mime/Indexed.antt =====
-- The attachments that are listed are those that are served.
use rookery.Base.{
  length-append, ℕ, zero, suc, ◌+◌, ◌≡◌, refl, Bool, true, false, Option, none, some, List, [], ◌∷◌,
  ◌++◌, arith, Text, codes, text_eq, length, get_elem?, if◌then◌else◌, ok, sym, ap, ◌∙◌,
}
use rookery.Smtp.Inbound.{AttachmentMeta}
use rookery.Smtp.Mime.{
  head_of, security_of, meta_of, collect_parts, at_index, collect_meta_parts, read_at, Head, Entity,
  leaf, multipart, Parts, no_parts, part, Found, meta_at, add_meta, AttachmentPart, part_at,
  add_part, is_attachment_part, collect_attachment_meta, collect_all_parts, read_attachment_at,
  attachments_of, parse_meta,
}

-- What is listed for a part with an index.
abbrev listed : ℕ → AttachmentPart → AttachmentMeta
listed i p = record {
  part_index = i;
  filename = p.filename;
  content_type = p.content_type;
  size_bytes = length p.body;
}

abbrev indexed : ℕ → List AttachmentPart → List AttachmentMeta
indexed i [] = []
indexed i (p ∷ ps) = listed i p ∷ indexed (suc i) ps

indexed-append :
    (i : ℕ) (ps : List AttachmentPart) (p : AttachmentPart)
    → indexed i (ps ++ p ∷ []) ≡ indexed i ps ++ listed (i + length ps) p ∷ []
indexed-append i [] p = ap (λ n. listed n p ∷ []) (omega arith)
indexed-append i (q ∷ ps) p =
    ap (λ xs. listed i q ∷ xs)
      (indexed-append (suc i) ps p ∙ ap (λ n. indexed (suc i) ps ++ listed n p ∷ []) (omega arith))

-- The two walks in step.
abbrev InStep : Found → List AttachmentPart → Type 0
InStep s ps = (s.0 ≡ indexed 0 ps) × (s.1 ≡ length ps)

add-InStep :
    (b : Bool) (h : Head) (body : Text) (s : Found) (ps : List AttachmentPart)
    → InStep s ps
    → InStep (add_meta b h body s) (add_part b h body ps)
add-InStep false h body s ps k = k
add-InStep true h body (found, idx) ps (same, count) =
    let grown = length-append ps (part_at h body (length ps) ∷ []) in
    (
      ap (λ xs. xs ++ meta_at h body idx ∷ []) same
          ∙ ap (λ n. indexed 0 ps ++ meta_at h body n ∷ []) count
          ∙ ap
              (λ n.
                indexed 0 ps
                ++ record (listed (length ps) (part_at h body (length ps))) { part_index = n } ∷ [])
              (omega arith)
          ∙ sym (indexed-append 0 ps (part_at h body (length ps))),
      ground (arith, grown),
    )

mutual
  unfolding collect_attachment_meta collect_all_parts

  collect-InStep :
      (e : Entity) (s : Found) (ps : List AttachmentPart)
      → InStep s ps
      → InStep (collect_attachment_meta e s) (collect_all_parts e ps)
  collect-InStep (leaf h body) s ps k =
      add-InStep (is_attachment_part h.content_type h.disposition) h body s ps k
  collect-InStep (multipart h xs) s ps k = collect_parts-InStep xs s ps k

  collect_parts-InStep :
      (xs : Parts) (s : Found) (ps : List AttachmentPart)
      → InStep s ps
      → InStep (collect_meta_parts xs s) (collect_parts xs ps)
  collect_parts-InStep no_parts s ps k = k
  collect_parts-InStep (part e xs) s ps k =
      collect_parts-InStep xs (collect_attachment_meta e s) (collect_all_parts e ps)
        (collect-InStep e s ps k)

get_elem?-indexed :
    (i k : ℕ) (ps : List AttachmentPart) (m : AttachmentMeta)
    → get_elem? (indexed i ps) k ≡ some m
    → (p : AttachmentPart) × (get_elem? ps k ≡ some p) × (m ≡ listed (i + k) p)
get_elem?-indexed i k [] m h = cc
get_elem?-indexed i zero (p ∷ ps) m h =
    let same : listed i p ≡ m = ground arith in
    (p, refl, sym same ∙ ap (λ n. listed n p) (omega arith))
get_elem?-indexed i (suc k) (p ∷ ps) m h =
    let (q, there, same) = get_elem?-indexed (suc i) k ps m h in
    (q, there, same ∙ ap (λ n. listed n q) (omega arith))

-- What is listed at an index of a message's attachments is what a download of this index serves: the
-- entry has this index, and the part has the entry's file name and type and as many bytes as it says.
pub parse_meta-read_attachment_at :
    (parse : Text → Option (List Text)) (read : Text → Option Entity) (raw : Text) (i : ℕ)
    (m : AttachmentMeta)
    → get_elem? (parse_meta parse read raw).attachments i ≡ some m
    → (p : AttachmentPart) × (read_attachment_at read raw i ≡ ok p)
      × (m.part_index ≡ i)
      × (m.filename ≡ p.filename)
      × (m.content_type ≡ p.content_type)
      × (m.size_bytes ≡ length p.body)
unfolding parse_meta read_attachment_at attachments_of
parse_meta-read_attachment_at parse read raw i m h = go (read raw) h
  where
    Serves : Option Entity → Type 0
    Serves o =
        (p : AttachmentPart) × (read_at o i ≡ ok p)
        × (m.part_index ≡ i)
        × (m.filename ≡ p.filename)
        × (m.content_type ≡ p.content_type)
        × (m.size_bytes ≡ length p.body)

    walked :
        (e : Entity) → get_elem? (collect_attachment_meta e ([], 0)).0 i ≡ some m → Serves (some e)
    walked e h =
        let (same, count) = collect-InStep e ([], 0) [] (refl, refl) in
        let (p, there, is) =
          get_elem?-indexed 0 i (collect_all_parts e []) m
            (sym (ap (λ xs. get_elem? xs i) same) ∙ h) in
        (
          p,
          ap at_index there,
          ap (λ x. x.part_index) is ∙ omega arith,
          ap (λ x. x.filename) is,
          ap (λ x. x.content_type) is,
          ap (λ x. x.size_bytes) is,
        )

    shown :
        (e : Entity) (b : Bool)
        → get_elem? (if b then [] else (collect_attachment_meta e ([], 0)).0) i ≡ some m
        → Serves (some e)
    shown e true h = cc
    shown e false h = walked e h

    go : (o : Option Entity) → get_elem? (meta_of parse o).attachments i ≡ some m → Serves o
    go none h = cc
    go (some e) h =
        shown e (text_eq (security_of (head_of e).content_type).0 (codes "pgp_encrypted")) h
