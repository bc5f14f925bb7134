-- ===== src/Wa/Client.antt =====
-- internal/wa/client.go and send.go, with SendReaction of reactions.go and DownloadImage of media.go:
-- the calls of whatsmeow that the program makes, and what it refuses before them.
use wachat.Prelude.{
  ℕ, String, Bool, true, false, Option, none, some, List, ◌==◌, text_eq, if◌then◌else◌, Runes,
  runes, ◌++◌,
}
use wachat.Wa.Format.{image_ext}

-- What an argument must be, or the call that failed.
pub data ClientError : Type 0 where
  client_is_nil : ClientError
  required : String → ClientError
  not_a_jid : String → ClientError
  not_an_image : ClientError
  call_failed : String → ClientError

pub data Outcome (A : Type 0) : Type 0 where
  done : A → Outcome A
  refused : ClientError → Outcome A

abbrev pub and_then : {A B S : Type 0} → Outcome A × S → (A → S → Outcome B × S) → Outcome B × S
and_then (done a, s) f = f a s
and_then (refused e, s) f = (refused e, s)

-- whatsmeow: `Session` is its client with the network behind it, `Jid` an address, `Payload` a
-- message to send. The answers of its calls are parameters; `false` and `none` are errors.
pub record Whatsmeow (Session Jid Payload Image : Type 0) : Type 0 where
  pub parse_jid : String → Option Jid
  pub text_payload : String → Payload
  pub build_reaction : Jid → Jid → String → String → Payload
  pub send_message : Jid → Payload → String → Session → Option String × Session
  pub generate_message_id : Session → String × Session
  pub pair_phone : String → String → Session → Option String × Session
  pub connect : Session → Bool × Session
  pub disconnect : Session → Session
  pub has_store : Session → Bool
  pub store_id : Session → Option String
  pub download : Image → Session → Option (List ℕ) × Session

-- A client that `New` did not make may lack the whatsmeow client or the container.
pub record Client (Session : Type 0) : Type 0 where
  pub wm : Option Session
  pub has_container : Bool

module _ {Session : Type 0} where
  -- `c == nil || c.wm == nil` is `none`.
  abbrev pub wm_of : Option (Client Session) → Option Session
  wm_of none = none
  wm_of (some c) = c.wm

  -- New: the container is opened, its first device loaded, and the client made; it does not
  -- connect. The parameters answer for sqlstore, and `none` is an error.
  unfoldable pub new :
      (Device : Type 0)
      → (String → Option (Option Device))
      → (Device → Session)
      → String
      → Outcome (Client Session)
  new Device open_container new_client db_path = elim (open_container db_path) [
    | none ↦ refused (call_failed "open sqlstore")
    | some none ↦ refused (call_failed "GetFirstDevice")
    | some (some device) ↦ done (record { wm = some (new_client device); has_container = true })
  ]

-- `if s == "" { return fmt.Errorf(…) }`
abbrev pub require : {A S : Type 0} → String → String → S → (S → Outcome A × S) → Outcome A × S
require name value s f = let r = f s in if value == "" then (refused (required name), s) else r

abbrev pub parsed_or :
    {A S J : Type 0} → String → Option J → S → (J → S → Outcome A × S) → Outcome A × S
parsed_or jid none s f = (refused (not_a_jid jid), s)
parsed_or jid (some to) s f = f to s

module _ {Session Jid Payload Image : Type 0} (api : Whatsmeow Session Jid Payload Image) where
  abbrev pub parse :
      {A : Type 0} → String → Session → (Jid → Session → Outcome A × Session) → Outcome A × Session
  parse jid s f = parsed_or jid (api.parse_jid jid) s f

  abbrev pub answer : {A : Type 0} → String → Option A × Session → Outcome A × Session
  answer name (none, s) = (refused (call_failed name), s)
  answer name (some a, s) = (done a, s)

  -- A client is given by what `wm_of` finds; a missing one has no session to change.
  abbrev pub with_client :
      {A : Type 0} → Option Session → (Session → Outcome A × Session) → Outcome A × Option Session
  with_client none f = (refused client_is_nil, none)
  with_client (some s) f = let (r, s') = f s in (r, some s')

  unfoldable pub pair_phone : String → String → Option Session → Outcome String × Option Session
  pair_phone phone client_display c = with_client c (λ s.
      require "phone" phone s (λ s. answer "PairPhone" (api.pair_phone phone client_display s)))

  unfoldable pub needs_pairing : Option Session → Bool
  needs_pairing none = true
  needs_pairing (some s) =
      if api.has_store s then (elim (api.store_id s) [ none ↦ true | some j ↦ false ]) else true

  unfoldable pub own_jid : Option Session → String
  own_jid none = ""
  own_jid (some s) =
      if api.has_store s then (elim (api.store_id s) [ none ↦ "" | some j ↦ j ]) else ""

  unfoldable pub generate_id : Option Session → String × Option Session
  generate_id none = ("", none)
  generate_id (some s) = let (i, s') = api.generate_message_id s in (i, some s')

  unfoldable pub connect : Session → Outcome (Unit {0}) × Session
  connect s =
      let (connected, s') = api.connect s in
      if connected then (done tt, s') else (refused (call_failed "Connect"), s')

  unfoldable pub disconnect : Option Session → Option Session
  disconnect none = none
  disconnect (some s) = some (api.disconnect s)

  -- Close disconnects, and then closes the container, if there is one; `closes` is its answer.
  unfoldable pub close : Bool → Client Session → Outcome (Unit {0}) × Client Session
  unfolding disconnect
  close closes c =
      let c' : Client Session = record c { wm = disconnect c.wm } in
      if c.has_container
      then if closes then (done tt, c') else (refused (call_failed "close container"), c')
      else (done tt, c')

  -- An empty id leaves the choice to whatsmeow.
  unfoldable pub send_text :
      String → String → String → Option Session → Outcome (Unit {0}) × Option Session
  send_text chat_jid body msg_id c = with_client c (λ s. require "chatJID" chat_jid s (λ s.
      require "body" body s (λ s. parse chat_jid s (λ to s.
        and_then (answer "SendText" (api.send_message to (api.text_payload body) msg_id s))
          (λ i s. (done tt, s))))))

  -- The answer is the id of the reaction message.
  unfoldable pub send_reaction :
      String → String → String → String → Option Session → Outcome String × Option Session
  send_reaction chat_jid target_sender_jid target_waid emoji c = with_client c (λ s.
      require "targetWAID" target_waid s (λ s. parse chat_jid s (λ chat s.
        parse target_sender_jid s (λ sender s.
          let (i, s') = api.generate_message_id s in
          answer "SendReaction"
            (api.send_message chat (api.build_reaction chat sender target_waid emoji) i s')))))

  -- `save` writes the file and answers with its path; its first argument is the file's name.
  unfoldable pub download_image :
      (Runes → List ℕ → Option Runes)
      → Option (Image × String)
      → String
      → Option Session
      → Outcome Runes × Option Session
  download_image save image wa_id c = with_client c (λ s. elim image [
    | none ↦ (refused not_an_image, s)
    | some (im, mime) ↦
        and_then (answer "DownloadImage" (api.download im s))
          (λ bytes s. answer "write" (save (runes wa_id ++ runes (image_ext mime)) bytes, s))
  ])
