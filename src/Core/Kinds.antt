-- ===== src/Core/Kinds.antt =====
-- crates/donut-core/src/kinds.rs: command bytes, flow names, transports.
use hold_the_donut.Prelude.{ℕ, ◌≡◌, refl, Option, none, some, List, [], ◌==◌, ◌||◌, if◌then◌else◌}
use hold_the_donut.Prelude.{codes, bytes_eq, arith}

pub data Command : Type 0 where
  tcp udp mux : Command

-- `command as u8`
unfoldable pub command_byte : Command → ℕ
command_byte tcp = 0x01
command_byte udp = 0x02
command_byte mux = 0x03

-- `Command::from_u8`
unfoldable pub command_from_u8 : ℕ → Option Command
command_from_u8 v =
    if v == 0x01
    then some tcp
    else if v == 0x02
    then some udp
    else if v == 0x03
    then some mux
    else none

pub data FlowKind : Type 0 where
  plain extended : FlowKind

abbrev extended_wire : List ℕ
extended_wire = codes "xtls-rprx-vision"

-- `FlowKind::as_str`
unfoldable pub flow_as_str : FlowKind → List ℕ
flow_as_str plain = []
flow_as_str extended = extended_wire

-- `FlowKind::from_wire`
unfoldable pub flow_from_wire : List ℕ → Option FlowKind
unfolding bytes_eq
flow_from_wire s =
    if bytes_eq s [] || bytes_eq s (codes "none")
    then some plain
    else if bytes_eq s extended_wire
    then some extended
    else none

pub data TransportKind : Type 0 where
  raw_tcp carrier carrier_quic : TransportKind

pub data TlsKind : Type 0 where
  no_tls tls veil : TlsKind

-- Each name that `flow_as_str` gives is read back as the same flow.
pub flow_from_wire-flow_as_str : (f : FlowKind) → flow_from_wire (flow_as_str f) ≡ some f
unfolding flow_from_wire flow_as_str
flow_from_wire-flow_as_str plain = refl
flow_from_wire-flow_as_str extended = refl

pub command_from_u8-command_byte : (c : Command) → command_from_u8 (command_byte c) ≡ some c
unfolding command_from_u8 command_byte
command_from_u8-command_byte tcp = refl
command_from_u8-command_byte udp = refl
command_from_u8-command_byte mux = refl

-- A byte that reads as a command is that command's own byte.
command_byte_of : (v : ℕ) (c : Command) → command_from_u8 v ≡ some c → command_byte c ≡ v
unfolding command_from_u8 command_byte
command_byte_of v c h = ground arith
