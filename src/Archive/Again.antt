-- ===== src/Archive/Again.antt =====
-- An archive that is imported again.
use rookery.Base.{
  zero, ℕ, suc, ◌≡◌, refl, Bool, true, false, Option, none, some, List, [], ◌∷◌, ◌++◌, arith, Text,
  text_eq_refl, ==_refl, any, length, All, sym, subst,
}
use rookery.Archive.{Message}
use rookery.Archive.Insert.{
  Answers, Progress, Step, then_step, header_of, is_same, own, stored_as, skipped, insert_absent,
  insert_if, insert_selected, insert_message_if_absent, import_messages,
}

-- The user has the message already.
abbrev Has : ℕ → Progress → Message → Type 0
Has user p m = any (is_same user m) p.db.messages ≡ true

any-append :
    {A : Type 0} (p : A → Bool) (xs ys : List A) → any p xs ≡ true → any p (xs ++ ys) ≡ true
any-append p [] ys h = cc
any-append p (x ∷ xs) ys h = ground (arith, any-append p xs ys)

any-append_last :
    {A : Type 0} (p : A → Bool) (xs : List A) (y : A) → p y ≡ true → any p (xs ++ y ∷ []) ≡ true
any-append_last p [] y h = ground arith
any-append_last p (x ∷ xs) y h = ground (arith, any-append_last p xs y h)

is_same-stored :
    (user : ℕ) (id : Text) (m : Message) → is_same user m (own user (stored_as id m)) ≡ true
unfolding is_same
is_same-stored user id m =
    ground (
      arith,
      text_eq_refl m.blob_sha256,
      text_eq_refl (header_of m.message_id_header),
      ==_refl user,
    )

insert_absent-Has :
    (e : Option Text) (id : Text) (user : ℕ) (m : Message) (p : Progress)
    → (insert_absent e id user m p).0 ≡ none
    → Has user (insert_absent e id user m p).1 m
insert_absent-Has (some e) id user m p h = cc
insert_absent-Has none id user m p h =
    any-append_last (is_same user m) p.db.messages (own user (stored_as id m))
      (is_same-stored user id m)

insert_if-Has :
    (a : Answers) (user : ℕ) (m : Message) (b : Bool) (p : Progress)
    → any (is_same user m) p.db.messages ≡ b
    → (insert_if a user m b p).0 ≡ none
    → Has user (insert_if a user m b p).1 m
insert_if-Has a user m true p is h = is
insert_if-Has a user m false p is h = insert_absent-Has (a.insert_err m) (a.new_id m) user m p h

-- A step without an error leaves the message with the user.
insert-Has :
    (a : Answers) (user : ℕ) (m : Message) (p : Progress)
    → (insert_message_if_absent a user m p).0 ≡ none
    → Has user (insert_message_if_absent a user m p).1 m
unfolding insert_message_if_absent
insert-Has a user m p h = go (a.select_err m) h
  where
    go :
        (e : Option Text)
        → (insert_selected a user m e p).0 ≡ none
        → Has user (insert_selected a user m e p).1 m
    go (some e) h = cc
    go none h = insert_if-Has a user m (any (is_same user m) p.db.messages) p refl h

-- No step removes a message.
insert-keeps :
    (a : Answers) (user : ℕ) (m n : Message) (p : Progress)
    → Has user p n
    → Has user (insert_message_if_absent a user m p).1 n
unfolding insert_message_if_absent
insert-keeps a user m n p has =
    go (a.select_err m) (any (is_same user m) p.db.messages) (a.insert_err m)
  where
    absent : (e : Option Text) → Has user (insert_absent e (a.new_id m) user m p).1 n
    absent (some e) = has
    absent none = any-append (is_same user n) p.db.messages _ has

    chosen : (b : Bool) → Has user (insert_if a user m b p).1 n
    chosen true = has
    chosen false = absent (a.insert_err m)

    go :
        (e1 : Option Text) (b : Bool) (e2 : Option Text)
        → Has user (insert_selected a user m e1 p).1 n
    go (some e) b e2 = has
    go none b e2 = chosen (any (is_same user m) p.db.messages)

then_messages :
    (a : Answers) (user : ℕ) (ms : List Message) (P : Progress → Type 0) (s : Step)
    → (P s.1 → P (import_messages a user ms s.1).1)
    → P s.1
    → P (then_step (λ q. import_messages a user ms q) s).1
then_messages a user ms P (some e, p) f h = h
then_messages a user ms P (none, p) f h = f h

import-keeps :
    (a : Answers) (user : ℕ) (ms : List Message) (n : Message) (p : Progress)
    → Has user p n
    → Has user (import_messages a user ms p).1 n
unfolding import_messages
import-keeps a user [] n p has = has
import-keeps a user (m ∷ ms) n p has =
    then_messages a user ms (λ q. Has user q n) (insert_message_if_absent a user m p)
      (import-keeps a user ms n (insert_message_if_absent a user m p).1)
      (insert-keeps a user m n p has)

-- After an import without an error the user has each message.
import-Has :
    (a : Answers) (user : ℕ) (ms : List Message) (p : Progress)
    → (import_messages a user ms p).0 ≡ none
    → All (Has user (import_messages a user ms p).1) ms
unfolding import_messages
import-Has a user [] p h = tt
import-Has a user (m ∷ ms) p h =
    go (insert_message_if_absent a user m p) (insert-Has a user m p)
      (import-Has a user ms (insert_message_if_absent a user m p).1) h
  where
    go :
        (s : Step)
        → (s.0 ≡ none → Has user s.1 m)
        → ((import_messages a user ms s.1).0 ≡ none
            → All (Has user (import_messages a user ms s.1).1) ms)
        → (then_step (λ q. import_messages a user ms q) s).0 ≡ none
        → Has user (then_step (λ q. import_messages a user ms q) s).1 m
          × All (Has user (then_step (λ q. import_messages a user ms q) s).1) ms
    go (some e, p) first rest h = cc
    go (none, p) first rest h = (import-keeps a user ms m p (first refl), rest h)

abbrev skipped_all : ℕ → Progress → Progress
skipped_all zero p = p
skipped_all (suc n) p = skipped_all n (record p { summary = skipped p.summary })

skips :
    (a : Answers) (user : ℕ) (ms : List Message) (p : Progress)
    → ((m : Message) → a.select_err m ≡ none)
    → All (Has user p) ms
    → import_messages a user ms p ≡ (none, skipped_all (length ms) p)
unfolding import_messages insert_message_if_absent
skips a user [] p fine has = refl
skips a user (m ∷ ms) p fine has =
    rw (fine m, has.0) (skips a user ms (record p { summary = skipped p.summary }) fine has.1)

-- Messages that were imported without an error are all skipped when they are imported again, and
-- no row is inserted for them. The second import starts from the messages that the first one left,
-- and its look-ups work.
pub import_messages_again :
    (a b : Answers) (user : ℕ) (ms : List Message) (p q : Progress)
    → (import_messages a user ms p).0 ≡ none
    → ((m : Message) → b.select_err m ≡ none)
    → q.db.messages ≡ (import_messages a user ms p).1.db.messages
    → import_messages b user ms q ≡ (none, skipped_all (length ms) q)
import_messages_again a b user ms p q h fine same = skips b user ms q fine (
    subst (λ rows. All (λ m. any (is_same user m) rows ≡ true) ms) (sym same)
      (import-Has a user ms p h))
