-- ===== src/Smtp/Reply.antt =====
-- What a handler of an SMTP session returns: internal/smtp/inbound.go and submission.go.
use rookery.Base.{ℕ, Text}

-- `smtp_error` has the code and the enhanced code of a go-smtp `SMTPError`; `plain_error` is an error
-- of another kind.
pub data Reply : Type 0 where
  accepted : Reply
  smtp_error : (code class subject detail : ℕ) → Text → Reply
  auth_required auth_failed auth_unsupported : Reply
  plain_error : Text → Reply

abbrev pub max_recipients : ℕ
max_recipients = 100
