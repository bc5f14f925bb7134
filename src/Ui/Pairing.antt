-- ===== src/Ui/Pairing.antt =====
-- internal/ui/pairing.go and banner.go: the linking screen and the connection banner.
use wachat.Prelude.{[], ◌∷◌, String, ◌==◌, text_eq, if◌then◌else◌, Runes, runes, ◌++◌}

pub data PairingPhase : Type 0 where
  idle waiting_qr scanned syncing ready failed : PairingPhase

pub record PairingView : Type 0 where
  pub phase : PairingPhase
  pub qr_code : String
  pub err_msg : Runes

unfoldable pub new_pairing_view : PairingView
new_pairing_view = record { phase = waiting_qr; qr_code = ""; err_msg = runes "" }

unfoldable pub set_phase : PairingPhase → PairingView → PairingView
set_phase phase p = record p { phase = phase }

unfoldable pub set_error : Runes → PairingView → PairingView
set_error msg p = record p { phase = failed; err_msg = msg }

-- wa.QRItem
pub record QrItem : Type 0 where
  pub event : String
  pub code : String

unfoldable pub handle_qr : QrItem → PairingView → PairingView
unfolding set_error
handle_qr item p =
    if item.event == "code"
    then record p { phase = waiting_qr; qr_code = item.code }
    else if item.event == "success"
    then record p { phase = scanned }
    else if item.event == "timeout"
    then set_error (runes "QR pairing timed out — relaunch wachat to try again") p
    else set_error (runes "pairing event: " ++ runes item.event) p

-- What the middle of the screen shows.
pub data Body : Type 0 where
  text : String → Body
  qr : String → Body
  nothing : Body

unfoldable pub layout_body : PairingView → Body
layout_body p = elim p.phase [
  | waiting_qr ↦ if p.qr_code == "" then text "waiting for QR…" else qr p.qr_code
  | scanned ↦ text "Phone scanned — finalizing…"
  | syncing ↦ text "Syncing history…"
  | ready ↦ text "Ready."
  | failed ↦ text "Pairing failed"
  | idle ↦ nothing
]

-- The line below; an empty one is not shown.
unfoldable pub layout_status : PairingView → Runes
layout_status p = elim p.phase [
  | waiting_qr ↦
      runes "Open WhatsApp → Settings → Linked Devices → Link a Device, then scan the code."
  | scanned ↦ runes "Hold tight — this can take a few seconds."
  | syncing ↦ runes "Pulling chat history. The window will switch over automatically."
  | failed ↦ elim p.err_msg [ [] ↦ runes "Restart wachat to try again." | c ∷ s ↦ c ∷ s ]
  | ready ↦ runes ""
  | idle ↦ runes ""
]

pub data ConnState : Type 0 where
  conn_connected conn_connecting conn_disconnected conn_logged_out : ConnState

-- The text of the banner; an empty one is not drawn.
unfoldable pub banner_copy : ConnState → String
banner_copy conn_connecting = "Connecting…"
banner_copy conn_disconnected = "Offline — reconnecting…"
banner_copy conn_logged_out = "Signed out from phone — relaunch to re-pair"
banner_copy conn_connected = ""
