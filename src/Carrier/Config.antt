-- ===== src/Carrier/Config.antt =====
-- `Mode` of crates/donut-carrier/src/mode.rs, `Placement` of placement.rs, `ServerConfig` of config.rs and
-- `CarrierError` of error.rs. Texts are their UTF-8 bytes.
use hold_the_donut.Prelude.{ℕ, Option, List, none, codes}

pub data Mode : Type 0 where
  stream_one : Mode
  stream_up : Mode
  packet_up : Mode

pub data Placement : Type 0 where
  in_path : Placement
  in_query : Placement
  in_header : Placement
  in_cookie : Placement

-- What serves a request that is no tunnel request: an address.
abbrev pub Decoy : Type 0
Decoy = List ℕ

pub record ServerConfig : Type 0 where
  pub mode : Mode
  pub session_placement : Placement
  pub seq_placement : Placement
  pub session_header : List ℕ
  pub session_key : List ℕ
  pub seq_header : List ℕ
  pub path_prefix : List ℕ
  pub max_post_bytes : ℕ
  pub max_buffered_posts : ℕ
  pub decoy : Option Decoy
  pub host : Option (List ℕ)

-- `ServerConfig::default`, the durations left out.
abbrev default_config : ServerConfig
default_config = record {
  mode = stream_one;
  session_placement = in_path;
  seq_placement = in_header;
  session_header = codes "X-Session";
  session_key = codes "x_session";
  seq_header = codes "X-Seq";
  path_prefix = codes "/";
  max_post_bytes = 1000000;
  max_buffered_posts = 30;
  decoy = none;
  host = none;
}

-- Those that the modelled code raises.
pub data CarrierError : Type 0 where
  invalid_session_id : CarrierError
  missing_session_id : Placement → CarrierError
  invalid_sequence : CarrierError
  missing_sequence : CarrierError
  upload_chunk_too_large : CarrierError
  bad_path : CarrierError
  hyper_error : CarrierError
