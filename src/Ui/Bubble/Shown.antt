-- ===== src/Ui/Bubble/Shown.antt =====
-- What a bubble shows of a deleted message, and the digits of a count.
use wachat.Prelude.{
  ◌&&◌, ℕ, suc, ◌+◌, ◌-◌, ◌*◌, ◌/◌, ◌%◌, ◌≡◌, refl, ap, inl, inr, String, Bool, true, false, not,
  ◌||◌, Option, List, [], ◌∷◌, ◌++◌, ◌==◌, nat_eq, text_eq, any, arith, Bool-cases, Runes,
}
use wachat.Store.Schema.{Message, Reaction}
use wachat.Wa.Format.Digits.{reads}
use wachat.Ui.Grouping.{GroupPosition}
use wachat.Ui.Bubble.{
  Mark, body_section, Section, media, sender, quoted, link, body, meta, reactions, last_digits,
  reaction_count_text, bubble_sections, bubble_body_text, quoted_block, only, bubble_meta,
  link_preview, media_block,
}

abbrev pub is_media : {Image : Type 0} → Section Image → Bool
is_media (media m) = true
is_media (sender s) = false
is_media (quoted s t) = false
is_media (link l) = false
is_media (body t i) = false
is_media (meta ms) = false
is_media (reactions ts) = false

any-append {ℓ} :
    {A : Type ℓ} (p : A → Bool) (xs ys : List A) → any p (xs ++ ys) ≡ (any p xs || any p ys)
unfolding any
any-append p [] ys = refl
any-append p (x ∷ xs) ys = ground (arith, any-append p xs ys)

bubble_body_text-revoked :
    (m : Message) (text : String) (edited : Bool)
    → m.revoked ≡ true
    → bubble_body_text (record m { body = text; edited = edited }) ≡ bubble_body_text m
unfolding bubble_body_text
bubble_body_text-revoked m text edited gone = rw gone refl

module _ (Image : Type 0) where
  any-only : (b : Bool) (x : Section Image) → any is_media (only b x) ≡ (b && is_media x)
  unfolding any
  any-only b x = ground arith

  any-body : (b : Runes × Bool) → any is_media (body_section {Image = Image} b) ≡ false
  unfolding any
  any-body ([], i) = refl
  any-body (c ∷ cs, i) = refl

  -- A row of another kind at the end.
  any-meta :
      (ms : List Mark) (rest : List (Section Image))
      → any is_media (meta ms ∷ rest) ≡ any is_media rest
  unfolding any
  any-meta ms rest = refl

module _ {Image : Type 0} (host_of : List ℕ → Option (List ℕ)) (m : Message) (group : GroupPosition)
    (from_me : Bool) (label : String) (rs : List Reaction) (image : Option Image) where
  -- The bubble of a deleted message does not depend on the message's text or edit mark, but it has
  -- an attachment exactly where the message has one, as before the deletion.
  pub revoked_hides_text :
      m.revoked ≡ true
      → ((text : String) (edited : Bool)
          → bubble_sections host_of
              (record m { body = text; edited = edited })
              group
              from_me
              label
              rs
              image
            ≡ bubble_sections host_of m group from_me label rs image)
        × (any is_media (bubble_sections host_of m group from_me label rs image)
            ≡ not (m.media_type == ""))
  unfolding bubble_sections quoted_block bubble_meta link_preview media_block
  revoked_hides_text gone = (
    λ text edited. rw (bubble_body_text-revoked m text edited gone) refl,
    rw
        (
          any-append,
          any-append,
          any-append,
          any-append,
          any-append,
          any-only Image,
          any-only Image,
          any-only Image,
          any-only Image,
          any-body Image,
          any-meta Image,
          any-only Image,
        )
        (ground arith),
  )

-- `k` digits of room keep the number below `modulus`.
abbrev KeepsBelow : ℕ → ℕ → Type 0
KeepsBelow room modulus =
    (n : ℕ) (acc : Runes) → reads (last_digits room n acc) 0 ≡ reads acc (n % modulus)

one_more :
    (room modulus larger : ℕ)
    → ((n : ℕ) → n / 10 % modulus * 10 + (48 + n % 10 - 48) ≡ n % larger)
    → 0 % larger ≡ 0
    → KeepsBelow room modulus
    → KeepsBelow (suc room) larger
unfolding last_digits reads
one_more room modulus larger step none_left h n acc = elim (Bool-cases (n == 0)) [
  | inl e ↦ rw (e, (nat_eq.same_iff n 0).0 e, none_left) refl
  | inr e ↦ rw (e, h (n / 10) ((48 + n % 10) ∷ acc), step n) refl
]

four_digits : KeepsBelow 4 10000
unfolding last_digits
four_digits =
    one_more 3 1000 10000 (λ n. omega arith) (omega arith)
      (one_more 2 100 1000 (λ n. omega arith) (omega arith)
        (one_more 1 10 100 (λ n. omega arith) (omega arith)
          (one_more 0 1 10 (λ n. omega arith) (omega arith)
            (λ n acc. ap (reads acc) (omega arith)))))

-- The count text of a reaction spells the count modulo 10000: its buffer has four bytes.
pub reaction_count_text_lem : (n : ℕ) → reads (reaction_count_text n) 0 ≡ n % 10000
unfolding reaction_count_text reads
reaction_count_text_lem n = elim (Bool-cases (n == 0)) [
  | inl e ↦ rw (e, (nat_eq.same_iff n 0).0 e) refl
  | inr e ↦ rw e (four_digits n [])
]
