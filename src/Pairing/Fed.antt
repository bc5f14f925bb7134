-- ===== src/Pairing/Fed.antt =====
-- A channel with a non-blocking sender: what its reader receives, against what was offered.
use wachat.Prelude.{
  ◌≤◌, ◌<◌, ◌≡◌, refl, sym, ap, ◌∙◌, ◌⊎◌, inl, inr, List, [], ◌∷◌, ◌++◌, ltb, length, length-append,
  arith, Bool-cases, ltb→lt, ltb→le,
}
use mathlib.Core.List.{append_assoc, Sublistᴰ}
use wachat.Ui.Pairing.{QrItem}
use wachat.Pairing.{capacity, Channel, close, offer}

module _ {ℓ} {A : Type ℓ} where
  pub Sublist-more : {xs ys : List A} (zs : List A) → Sublistᴰ xs ys → Sublistᴰ xs (ys ++ zs)
  Sublist-more [] Sublistᴰ.slnil = Sublistᴰ.slnil
  Sublist-more (z ∷ zs) Sublistᴰ.slnil = Sublistᴰ.cons (Sublist-more zs Sublistᴰ.slnil)
  Sublist-more zs (Sublistᴰ.cons s) = Sublistᴰ.cons (Sublist-more zs s)
  Sublist-more zs (Sublistᴰ.cons-cons e s) = Sublistᴰ.cons-cons e (Sublist-more zs s)

  pub Sublist-both :
      {xs ys : List A} (z : A) → Sublistᴰ xs ys → Sublistᴰ (xs ++ z ∷ []) (ys ++ z ∷ [])
  Sublist-both z Sublistᴰ.slnil = Sublistᴰ.cons-cons refl Sublistᴰ.slnil
  Sublist-both z (Sublistᴰ.cons s) = Sublistᴰ.cons (Sublist-both z s)
  Sublist-both z (Sublistᴰ.cons-cons e s) = Sublistᴰ.cons-cons e (Sublist-both z s)

-- A reader of a channel with `sent` offered to it: what it has received and what is in the buffer
-- stand in order in `sent`, and all of it where no more than the room was ever offered.
pub record IsFed (received : List QrItem) (c : Channel) (sent : List QrItem) : Type 0 where
  pub small : length c.buffer ≤ capacity
  pub in_order : Sublistᴰ (received ++ c.buffer) sent
  pub few : (received ++ c.buffer ≡ sent) ⊎ (capacity < length sent)

pub IsFed-offer :
    {received sent : List QrItem} {c : Channel} (item : QrItem)
    → IsFed received c sent
    → IsFed received (offer item c) (sent ++ item ∷ [])
unfolding offer
IsFed-offer {received} {sent} {c} item h = elim (Bool-cases (ltb (length c.buffer) capacity)) [
  | inl e ↦ rw e (record {
    small = rw (length-append c.buffer (item ∷ [])) (omega (arith, ltb→lt _ _ e));
    in_order = rw (sym (append_assoc received c.buffer (item ∷ []))) (Sublist-both item h.in_order);
    few = elim h.few [
      | inl all ↦
          inl (sym (append_assoc received c.buffer (item ∷ [])) ∙ ap (λ l. l ++ item ∷ []) all)
      | inr more ↦ inr (rw (length-append sent (item ∷ [])) (omega arith))
    ];
  })
  | inr e ↦ rw e (record {
    small = h.small;
    in_order = Sublist-more (item ∷ []) h.in_order;
    few = inr (elim h.few [
      | inl all ↦ omega (
        arith,
        ltb→le _ _ e,
        length-append sent (item ∷ []),
        length-append received c.buffer,
        ap length all,
      )
      | inr more ↦ omega (arith, length-append sent (item ∷ []))
    ]);
  })
]

pub IsFed-receive :
    {received sent : List QrItem} {c : Channel} {item : QrItem} {rest : List QrItem}
    → c.buffer ≡ item ∷ rest
    → IsFed received c sent
    → IsFed (received ++ item ∷ []) (record c { buffer = rest }) sent
IsFed-receive {received} {sent} {c} {item} {rest} e h =
    let same : (received ++ item ∷ []) ++ rest ≡ received ++ c.buffer =
      append_assoc received (item ∷ []) rest ∙ ap (λ l. received ++ l) (sym e) in
    record {
      small = omega (arith, ap length e, h.small);
      in_order = rw same h.in_order;
      few = rw same h.few;
    }

pub offer-closed : (item : QrItem) (c : Channel) → (offer item c).closed ≡ c.closed
unfolding offer
offer-closed item c = ground arith

pub IsFed-close :
    {received sent : List QrItem} {c : Channel}
    → IsFed received c sent
    → IsFed received (close c) sent
IsFed-close h = record { small = h.small; in_order = h.in_order; few = h.few }
