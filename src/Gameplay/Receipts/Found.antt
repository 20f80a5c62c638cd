-- ===== src/Gameplay/Receipts/Found.antt =====
-- The receipt that was stored last is found again
-- (packages/database/src/gameplay/attempts.ts).
use loremaster.Prelude.{
  ◌≡◌, refl, sym, ap, true, List, ◌∷◌, Option, none, some, String, str_eq, str_eq_iff, arith,
}
use loremaster.Prelude.Js.{Text, compare_text-eq}
use loremaster.Gameplay.{Store, Receipt}
use loremaster.Gameplay.Receipts.{same_text, find_receipt, receipt, is_attempt}

pub str_eq_refl : (s : String) → str_eq s s ≡ true
str_eq_refl s = (str_eq_iff s s).1 refl

pub same_text_refl : (t : Text) → same_text t t ≡ true
unfolding same_text
same_text_refl t = let e = (compare_text-eq t t).1 refl in ground arith

pub same_text-eq : (s t : Text) → same_text s t ≡ true → s ≡ t
unfolding same_text
same_text-eq s t h = (compare_text-eq s t).0 (ground arith)

pub is_attempt_refl : (id : String) → is_attempt id (some id) ≡ true
unfolding is_attempt
is_attempt_refl id = str_eq_refl id

pub is_attempt-eq : (id : String) (o : Option String) → is_attempt id o ≡ true → o ≡ some id
unfolding is_attempt
is_attempt-eq id none h = absurd (cc h)
is_attempt-eq id (some a) h = ap some ((str_eq_iff a id).0 h)

pub receipt-front :
    (s : Store) (guest_id : String) (key : Text) (new : Receipt) (rest : List Receipt)
    → s.receipts ≡ new ∷ rest
    → new.guest_id ≡ guest_id
    → new.idempotency_key ≡ key
    → receipt s guest_id key ≡ some new
unfolding receipt find_receipt
receipt-front s guest_id key new rest e g k =
    rw (e, sym g, sym k, str_eq_refl new.guest_id, same_text_refl new.idempotency_key) refl
