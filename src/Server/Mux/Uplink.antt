-- ===== src/Server/Mux/Uplink.antt =====
-- The uplink of `mux_relay` does not depend on how the carrier cuts it, inside Vision or not.
use hold_the_donut.Prelude.{
  ℕ, ◌≡◌, refl, sym, ap, ◌∙◌, Option, none, some, List, [], ◌∷◌, ◌++◌, All, IsByte, Outcome-cases,
  inl, inr, ok, err, panic,
}
use mathlib.Core.List.{flatten}
use hold_the_donut.Vision.Stream.{detect, run}
use hold_the_donut.Io.VisionXray.{Unpadder, new_unpadder, push}
use hold_the_donut.Io.VisionXray.Streams.{feed, feed-new}
use hold_the_donut.Server.Mux.{MuxError}
use hold_the_donut.Server.Mux.Egress.{Net}
use hold_the_donut.Server.Mux.Relay.{new_relay, Drained, started, drain, relay_all}
use hold_the_donut.Server.Mux.Chunks.{
  relay_all-flatten, relay_all-ok, relay_all-err, relay_all-panic,
}
use hold_the_donut.Server.Mux.Padded.{devision, uplink}

-- What `devision` gives of each chunk.
devision_all : Option Unpadder → List (List ℕ) → List (List ℕ)
unfolding devision
devision_all unp [] = []
devision_all unp (c ∷ chunks) = let r = devision unp c in r.1 ∷ devision_all r.0 chunks

module _ (net : Net) where
  uplink-ok :
      (unp : Option Unpadder) (d : Drained) (c : List ℕ) (chunks : List (List ℕ))
      → d.outcome ≡ ok tt
      → uplink net unp d (c ∷ chunks)
        ≡ uplink net (devision unp c).0 (drain net d.relay (d.inbuf ++ (devision unp c).1)) chunks
  unfolding uplink
  uplink-ok unp d c chunks h = rw h refl

  uplink-err :
      (unp : Option Unpadder) (d : Drained) (c : List ℕ) (chunks : List (List ℕ)) (e : MuxError)
      → d.outcome ≡ err e
      → uplink net unp d (c ∷ chunks) ≡ d
  unfolding uplink
  uplink-err unp d c chunks e h = rw h refl

  uplink-panic :
      (unp : Option Unpadder) (d : Drained) (c : List ℕ) (chunks : List (List ℕ))
      → d.outcome ≡ panic
      → uplink net unp d (c ∷ chunks) ≡ d
  unfolding uplink
  uplink-panic unp d c chunks h = rw h refl

  uplink-relay_all :
      (unp : Option Unpadder) (d : Drained) (chunks : List (List ℕ))
      → uplink net unp d chunks ≡ relay_all net d (devision_all unp chunks)
  unfolding devision_all uplink relay_all
  uplink-relay_all unp d [] = refl
  uplink-relay_all unp d (c ∷ chunks) =
      let r = devision unp c in
      let later = uplink-relay_all r.0 (drain net d.relay (d.inbuf ++ r.1)) chunks in
      elim (Outcome-cases d.outcome) [
        | inl (u, h) ↦
            uplink-ok unp d c chunks h
            ∙ later
            ∙ sym (relay_all-ok net d r.1 (devision_all r.0 chunks) h)
        | inr (inl (e, h)) ↦
            uplink-err unp d c chunks e h
            ∙ sym (relay_all-err net e d (r.1 ∷ devision_all r.0 chunks) h)
        | inr (inr h) ↦
            uplink-panic unp d c chunks h
            ∙ sym (relay_all-panic net d (r.1 ∷ devision_all r.0 chunks) h)
      ]

devision_all-none : (chunks : List (List ℕ)) → flatten (devision_all none chunks) ≡ flatten chunks
unfolding devision_all devision flatten
devision_all-none [] = refl
devision_all-none (c ∷ chunks) = ap (λ t. c ++ t) (devision_all-none chunks)

devision_all-some :
    (u : Unpadder) (chunks : List (List ℕ))
    → flatten (devision_all (some u) chunks) ≡ (feed u chunks).1
unfolding devision_all devision feed flatten
devision_all-some u [] = refl
devision_all-some u (c ∷ chunks) =
    ap (λ t. (push u c).1 ++ t) (devision_all-some (push u c).0 chunks)

-- The unpadder that `mux_relay` begins with.
abbrev pub unpadder_of : Option (List ℕ) → Option Unpadder
unpadder_of none = none
unpadder_of (some uuid) = some (new_unpadder uuid)

plain_bytes :
    (vision_uuid : Option (List ℕ)) (chunks chunks' : List (List ℕ))
    → All (All IsByte) chunks
    → All (All IsByte) chunks'
    → flatten chunks ≡ flatten chunks'
    → flatten (devision_all (unpadder_of vision_uuid) chunks)
      ≡ flatten (devision_all (unpadder_of vision_uuid) chunks')
plain_bytes none chunks chunks' b b' e =
    devision_all-none chunks ∙ e ∙ sym (devision_all-none chunks')
plain_bytes (some uuid) chunks chunks' b b' e =
    devision_all-some (new_unpadder uuid) chunks
    ∙ (feed-new uuid chunks b).out
    ∙ ap (λ t. (run uuid (detect []) t).1) e
    ∙ sym (devision_all-some (new_unpadder uuid) chunks' ∙ (feed-new uuid chunks' b').out)

-- Two ways to cut the same bytes of the tunnel into chunks, those left over from the request included,
-- plain or padded: the same sub-sessions, the same datagrams in the same order by the same egress, the
-- same count of bytes, and the same error or none.
pub uplink-chunks :
    (net : Net) (vision_uuid : Option (List ℕ)) (chunks chunks' : List (List ℕ))
    → All (All IsByte) chunks
    → All (All IsByte) chunks'
    → flatten chunks ≡ flatten chunks'
    → ((uplink net (unpadder_of vision_uuid) (started new_relay) chunks).relay
        ≡ (uplink net (unpadder_of vision_uuid) (started new_relay) chunks').relay)
      × ((uplink net (unpadder_of vision_uuid) (started new_relay) chunks).outcome
          ≡ (uplink net (unpadder_of vision_uuid) (started new_relay) chunks').outcome)
uplink-chunks net vision_uuid chunks chunks' b b' e =
    let unp = unpadder_of vision_uuid in
    rw
      (
        uplink-relay_all net unp (started new_relay) chunks,
        uplink-relay_all net unp (started new_relay) chunks',
      )
      (relay_all-flatten net new_relay (devision_all unp chunks) (devision_all unp chunks')
        (plain_bytes vision_uuid chunks chunks' b b' e))
