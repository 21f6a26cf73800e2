-- ===== src/Smtp/Tests/Parts.antt =====
-- internal/smtp/inbound.go: a message with a text and an attachment without a name.
use rookery.Base.{
  ◌≡◌, refl, none, some, [], Text, codes, length, ok, text_eq, has_prefix, equal_fold, to_lower,
  lower_byte, trim_space, trim_left, is_space,
}
use rookery.Smtp.Inbound.{AttachmentMeta}
use rookery.Smtp.Mime.{
  Head, Entity, leaf, multipart, no_parts, part, AttachmentPart, meta_at, is_attachment_part,
  collect_attachment_meta, attachments_of, security_of, parse_meta, read_attachment_at,
}
use rookery.Smtp.Mime.Indexed.{parse_meta-read_attachment_at}

abbrev head : Text → Text → Head
head content_type disposition = record {
  content_type = content_type;
  type_name = [];
  disposition = disposition;
  disp_filename = [];
  get = λ field. [];
}

abbrev message : Entity
message = multipart (head (codes "multipart/mixed") []) (
    part (leaf (head (codes "text/plain") []) (codes "hello"))
      (part (leaf (head (codes "image/png") (codes "attachment")) (codes "png")) no_parts))

abbrev image : AttachmentMeta
image = meta_at (head (codes "image/png") (codes "attachment")) (codes "png") 0

parse_meta-read_attachment_at_example :
    (p : AttachmentPart) × (read_attachment_at (λ raw. some message) [] 0 ≡ ok p)
    × (image.part_index ≡ 0)
    × (image.filename ≡ p.filename)
    × (image.content_type ≡ p.content_type)
    × (image.size_bytes ≡ length p.body)
parse_meta-read_attachment_at_example =
    parse_meta-read_attachment_at (λ header. none) (λ raw. some message) [] 0 image
      (unfold parse_meta attachments_of security_of collect_attachment_meta is_attachment_part
          text_eq has_prefix equal_fold to_lower lower_byte trim_space trim_left is_space in
        refl)
