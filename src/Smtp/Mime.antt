-- ===== src/Smtp/Mime.antt =====
-- internal/smtp/inbound.go: the walk over the MIME parts of a message. The reader of a message, the parser
-- of address lists, base64 and the OpenPGP packets are parameters.
pub mod Indexed
use rookery.Base.{
  ℕ, suc, ◌+◌, Bool, true, false, ◌&&◌, ◌||◌, not, Option, none, some, List, [], ◌∷◌, ◌++◌, Text,
  codes, text_eq, equal_fold, has_prefix, to_lower, trim_space, split, cut, drop, length, select,
  map, get_elem?, ltb, ◌==◌, if◌then◌else◌, Result, ok, err,
}
use rookery.Smtp.Client.{itoa}
use rookery.Smtp.Inbound.{AttachmentMeta, MsgMeta}

-- The header of a part: the type with its parameter "name", the disposition with its "filename", and
-- the other fields.
pub record Head : Type 0 where
  pub content_type : Text
  pub type_name : Text
  pub disposition : Text
  pub disp_filename : Text
  pub get : Text → Text

-- A part has a body, with its transfer encoding undone, or parts: those up to the first that cannot
-- be read.
mutual
  pub data Entity : Type 0 where
    leaf : Head → (body : Text) → Entity
    multipart : Head → Parts → Entity

  pub data Parts : Type 0 where
    no_parts : Parts
    part : Entity → Parts → Parts

abbrev pub head_of : Entity → Head
head_of (leaf h body) = h
head_of (multipart h ps) = h

abbrev is_pgp_part : Text → Bool
is_pgp_part ct =
    text_eq ct (codes "application/pgp-encrypted")
    || text_eq ct (codes "application/pgp-keys")
    || text_eq ct (codes "application/pgp-signature")

abbrev is_other_part : Text → Bool
is_other_part ct =
    not (has_prefix ct (codes "text/"))
    && not (has_prefix ct (codes "multipart/"))
    && not (text_eq ct [])

unfoldable pub is_attachment_part : (ct disp : Text) → Bool
is_attachment_part ct disp =
    let lower = to_lower (trim_space ct) in
    if is_pgp_part lower
    then false
    else if equal_fold disp (codes "attachment")
    then true
    else is_other_part lower

-- The name of the attachment with this index.
unfoldable pub filename_of : Head → ℕ → Text
filename_of h idx =
    if not (text_eq h.disp_filename [])
    then h.disp_filename
    else if not (text_eq h.type_name [])
    then h.type_name
    else codes "attachment-" ++ itoa idx

abbrev pub meta_at : Head → Text → ℕ → AttachmentMeta
meta_at h body idx = record {
  part_index = idx;
  filename = filename_of h idx;
  content_type = h.content_type;
  size_bytes = length body;
}

-- The results so far, and the next index.
abbrev pub Found : Type 0
Found = List AttachmentMeta × ℕ

abbrev pub add_meta : Bool → Head → Text → Found → Found
add_meta false h body (found, idx) = (found, idx)
add_meta true h body (found, idx) = (found ++ meta_at h body idx ∷ [], suc idx)

unfoldable mutual
  pub collect_attachment_meta : Entity → Found → Found
  collect_attachment_meta (leaf h body) s =
      add_meta (is_attachment_part h.content_type h.disposition) h body s
  collect_attachment_meta (multipart h ps) s = collect_meta_parts ps s

  pub collect_meta_parts : Parts → Found → Found
  collect_meta_parts no_parts s = s
  collect_meta_parts (part e ps) s = collect_meta_parts ps (collect_attachment_meta e s)

pub record AttachmentPart : Type 0 where
  pub filename : Text
  pub content_type : Text
  pub body : Text

abbrev pub part_at : Head → Text → ℕ → AttachmentPart
part_at h body idx = record {
  filename = filename_of h idx;
  content_type = h.content_type;
  body = body;
}

abbrev pub add_part : Bool → Head → Text → List AttachmentPart → List AttachmentPart
add_part false h body found = found
add_part true h body found = found ++ part_at h body (length found) ∷ []

unfoldable mutual
  pub collect_all_parts : Entity → List AttachmentPart → List AttachmentPart
  collect_all_parts (leaf h body) found =
      add_part (is_attachment_part h.content_type h.disposition) h body found
  collect_all_parts (multipart h ps) found = collect_parts ps found

  pub collect_parts : Parts → List AttachmentPart → List AttachmentPart
  collect_parts no_parts found = found
  collect_parts (part e ps) found = collect_parts ps (collect_all_parts e found)

abbrev pub at_index : Option AttachmentPart → Result AttachmentPart
at_index none = err (codes "attachment index out of range")
at_index (some p) = ok p

abbrev pub read_at : Option Entity → ℕ → Result AttachmentPart
read_at none index = err (codes "parse MIME")
read_at (some e) index = at_index (get_elem? (collect_all_parts e []) index)

-- The part of a message that the download of an attachment serves.
unfoldable pub read_attachment_at :
    (read : Text → Option Entity) → Text → (index : ℕ) → Result AttachmentPart
read_attachment_at read raw index = read_at (read raw) index

abbrev before : Text → Option (Text × Text) → Text
before s none = s
before s (some (address, rest)) = address

-- The first ">" may stand before the first "<".
abbrev closed : Text → Option (Text × Text) → Option (Text × Text) → Text
closed s (some early) close = s
closed s none close = before s close

abbrev opened : Text → Option (Text × Text) → Text
opened s none = s
opened s (some (a, b)) = closed s (cut b'>' a) (cut b'>' b)

-- What stands between "<" and ">", if the first ">" is behind the first "<".
unfoldable pub unbracketed : Text → Text
unbracketed s = opened s (cut b'<' s)

abbrev lower_nonempty : List Text → List Text
lower_nonempty parts = map to_lower (select (λ p. not (text_eq p [])) parts)

unfoldable pub fallback_address_list : Text → List Text
fallback_address_list header =
    lower_nonempty (map (λ p. unbracketed (trim_space p)) (split b',' header))

abbrev parsed_or : Text → Option (List Text) → List Text
parsed_or header none = fallback_address_list header
parsed_or header (some addresses) = lower_nonempty addresses

-- `parse` is net/mail's, and gives the bare addresses.
unfoldable pub address_list : (parse : Text → Option (List Text)) → Text → List Text
address_list parse header = if text_eq header [] then [] else parsed_or header (parse header)

abbrev empty_meta : MsgMeta
empty_meta = record {
  subject = [];
  to = [];
  cc = [];
  security_state = codes "plaintext";
  signature_status = codes "none";
  has_attachments = false;
  attachments = [];
}

unfoldable pub security_of : Text → Text × Text
security_of ct =
    if text_eq ct (codes "multipart/encrypted")
    then (codes "pgp_encrypted", codes "none")
    else if text_eq ct (codes "multipart/signed")
    then (codes "pgp_signed_plaintext", codes "unknown_key")
    else (codes "plaintext", codes "none")

-- What is hidden in an encrypted message is left to the browser.
unfoldable pub attachments_of : Entity → List AttachmentMeta
attachments_of e =
    if text_eq (security_of (head_of e).content_type).0 (codes "pgp_encrypted")
    then []
    else (collect_attachment_meta e ([], 0)).0

abbrev pub meta_of : (Text → Option (List Text)) → Option Entity → MsgMeta
meta_of parse none = empty_meta
meta_of parse (some e) =
    let (security, signature) = security_of (head_of e).content_type in
    record {
      subject = (head_of e).get (codes "Subject");
      to = address_list parse ((head_of e).get (codes "To"));
      cc = address_list parse ((head_of e).get (codes "Cc"));
      security_state = security;
      signature_status = signature;
      has_attachments = ltb 0 (length (attachments_of e));
      attachments = attachments_of e;
    }

unfoldable pub parse_meta :
    (parse : Text → Option (List Text)) → (read : Text → Option Entity) → Text → MsgMeta
parse_meta parse read raw = meta_of parse (read raw)

abbrev key_or : Text → Text → Text
key_or [] rest = rest
key_or (c ∷ key) rest = c ∷ key

-- The body of the first part that is a key, in the order of the parts.
unfoldable mutual
  pub walk_for_key : Entity → Text
  walk_for_key (leaf h body) =
      if equal_fold h.content_type (codes "application/pgp-keys") then body else []
  walk_for_key (multipart h ps) = walk_parts ps

  pub walk_parts : Parts → Text
  walk_parts no_parts = []
  walk_parts (part e ps) = key_or (walk_for_key e) (walk_parts ps)

-- The value of the first field "keydata".
unfoldable pub keydata_of : List Text → Text
keydata_of [] = []
keydata_of (f ∷ fs) =
    let rest = keydata_of fs in
    if has_prefix (to_lower (trim_space f)) (codes "keydata=") then drop 8 (trim_space f) else rest

abbrev is_folding : ℕ → Bool
is_folding c = c == 32 || c == 9 || c == 13 || c == 10

abbrev decoded : (Text → Text) → Option Text → Text
decoded armor none = []
decoded armor (some bytes) = armor bytes

-- `armor` is `armorBinaryKey`: empty where the bytes are no key.
unfoldable pub extract_autocrypt_key :
    (base64 : Text → Option Text) → (armor : Text → Text) → Entity → Text
extract_autocrypt_key base64 armor e =
    let keydata = keydata_of (split b';' ((head_of e).get (codes "Autocrypt"))) in
    if text_eq keydata []
    then []
    else decoded armor (base64 (select (λ c. not (is_folding c)) keydata))

abbrev attached : (Text → Option Text) → (Text → Text) → Option Entity → Text
attached base64 armor none = []
attached base64 armor (some e) = key_or (walk_for_key e) (extract_autocrypt_key base64 armor e)

unfoldable pub extract_attached_public_key :
    (base64 : Text → Option Text)
    → (armor : Text → Text) → (read : Text → Option Entity) → Text
    → Text
extract_attached_public_key base64 armor read raw = attached base64 armor (read raw)
