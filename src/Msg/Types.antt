-- ===== src/Msg/Types.antt =====
-- The types and constants of src/msg.rs. A content hash is its bytes.
use rust_ma_core.Common.{ℕ, Str, Bytes, codes, Option, List}
use rust_ma_core.Error.{MaResult}

abbrev pub default_replay_window_secs : ℕ
default_replay_window_secs = 120

abbrev pub default_max_clock_skew_secs : ℕ
default_max_clock_skew_secs = 30

abbrev pub default_message_ttl_secs : ℕ
default_message_ttl_secs = 3600

-- `MESSAGE_PREFIX` and `VERSION`, as `default_protocol()` joins them.
abbrev pub default_protocol : Str
default_protocol = codes "/ma/0.0.1"

abbrev pub message_type_broadcast : Str
message_type_broadcast = codes "application/vnd.ma.broadcast"

abbrev pub blake3_headers_label : Str
blake3_headers_label = codes "ma"

abbrev pub blake3_content_label : Str
blake3_content_label = codes "/ma/0.0.1"

-- What one call of `now_unix_secs()` returns.
abbrev pub Reading : Type 0
Reading = MaResult ℕ

pub record Headers : Type 0 where
  pub id : Str
  pub protocol : Str
  pub message_type : Str
  pub from : Str
  pub to : Str
  pub created_at : ℕ
  pub exp : ℕ
  pub content_type : Str
  pub reply_to : Option Str
  pub content_hash : Bytes
  pub signature : Bytes

pub record Message : Type 0 where
  pub id : Str
  pub protocol : Str
  pub message_type : Str
  pub from : Str
  pub to : Str
  pub created_at : ℕ
  pub exp : ℕ
  pub content_type : Str
  pub reply_to : Option Str
  pub content : Bytes
  pub signature : Bytes

pub record MessageOptions : Type 0 where
  pub exp : ℕ
  pub reply_to : Option Str

pub record Envelope : Type 0 where
  pub ephemeral_key : Bytes
  pub encrypted_content : Bytes
  pub encrypted_headers : Bytes

-- The `HashMap` is the list of its entries; its order is nowhere read.
pub record ReplayGuard : Type 0 where
  pub seen : List (Str × ℕ)
  pub window_secs : ℕ
