-- ===== src/Trd/Link/Sending.antt =====
-- What trd_send of master/trd/trd.c keeps and hands to the link.
use tenet_t.Prelude.{◌≡◌, Bool, false}
use tenet_t.Trd.State.{TrdState}

-- Nothing is handed to the link, and the message is not passed up.
abbrev Silent : TrdState → TrdState → Bool → Type 0
Silent s s' b = (s'.sent ≡ s.sent) × (b ≡ false)
