-- ===== src/Hid.antt =====
-- app/src/hid/hid_event.h: what the HID devices of the client send.
use droidctl.Base.{ℕ, List}

pub record HidOpen : Type 0 where
  pub hid_id : ℕ
  pub report_desc : List ℕ

pub record HidInput : Type 0 where
  pub hid_id : ℕ
  pub size : ℕ
  pub bytes : List ℕ
