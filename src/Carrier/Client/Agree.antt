-- ===== src/Carrier/Client/Agree.antt =====
-- What the client sends and what the server finds in it.
use hold_the_donut.Prelude.{
  ℕ, ◌<◌, ◌≡◌, ◌≢◌, refl, ◌∙◌, ◌⊎◌, inl, inr, true, false, Bool-cases, Option, none, some, List, [],
  ◌∷◌, ◌++◌, append_assoc, append-nil, if◌then◌else◌, codes, bytes_eq, bytes_eq_refl, bytes_eq→eq,
  All, ok, err,
}
use hold_the_donut.Carrier.Config.{
  ServerConfig, missing_sequence, in_path, in_query, in_header, packet_up,
}
use hold_the_donut.Carrier.SessionId.{SessionId, IsSessionId, Hex, IsHex, slash, to_hex}
use hold_the_donut.Carrier.Extract.{
  Head, to_ascii_lowercase, host_pinned, session_id, seq_text, sequence, query_value, find_value,
  split, split_once, unwrap_or,
}
use hold_the_donut.Carrier.Extract.Found.{at_end, session_id-to_hex-to_uuid}
use hold_the_donut.Carrier.PacketUp.{bad_request_400}
use hold_the_donut.Carrier.PacketUp.Handle.{Request, Dispatcher, status, handle, is_packet_up}
use hold_the_donut.Carrier.Client.{
  ClientConfig, Headers, Sent, with_slash, ends_with_slash, compose_path, session_headers,
  seq_headers, to_string, type_headers, build_request, post_request, host_header, content_type,
}
use hold_the_donut.Carrier.Client.Decimal.{parse_u64-to_string}

-- The first value under a name, in which case does not count.
unfoldable pub find_header : List ℕ → Headers → Option (List ℕ)
unfolding to_ascii_lowercase
find_header name [] = none
find_header name ((n, v) ∷ hs) =
    if bytes_eq (to_ascii_lowercase n) (to_ascii_lowercase name)
    then some v
    else find_header name hs

abbrev NoMark : List ℕ → Type 0
NoMark = All (λ c. c ≢ b'?')

-- How the crates hyper and http read a request that was sent: its method, its target without a query, and its
-- headers of printable ASCII.
pub record ReadFrom (sent : Sent) (head : Head) : Type 0 where
  pub same_method : head.is_get ≡ sent.is_get
  pub plain_path : NoMark (sent.target) → head.path ≡ sent.target
  pub no_query : NoMark (sent.target) → head.query ≡ none
  pub headers : (name : List ℕ) → head.header name ≡ find_header name (sent.headers)

with_slash-sep :
    (p : List ℕ) → (sep : List ℕ) × (with_slash p ≡ p ++ sep) × ((sep ≡ []) ⊎ (sep ≡ slash ∷ []))
unfolding with_slash
with_slash-sep p = elim (Bool-cases (ends_with_slash p)) [
  | inl t ↦ ([], rw (t, append-nil p) refl, inl refl)
  | inr f ↦ (slash ∷ [], rw f refl, inr refl)
]

differs : (xs ys : List ℕ) → xs ≢ ys → bytes_eq xs ys ≡ false
differs xs ys ne = elim (Bool-cases (bytes_eq xs ys)) [
  | inl t ↦ absurd (ne (bytes_eq→eq xs ys t))
  | inr f ↦ f
]

-- A header name that the client does not use otherwise.
pub record IsFree (name : List ℕ) : Type 0 where
  pub no_host : to_ascii_lowercase host_header ≢ to_ascii_lowercase name
  pub no_type : to_ascii_lowercase content_type ≢ to_ascii_lowercase name

find_header-free :
    (name v w w' : List ℕ)
    → IsFree name
    → find_header name ((host_header, v) ∷ (content_type, w) ∷ (name, w') ∷ []) ≡ some w'
unfolding find_header
find_header-free name v w w' free =
    rw
      (
        differs _ _ (free.no_host),
        differs _ _ (free.no_type),
        bytes_eq_refl (to_ascii_lowercase name),
      )
      refl

-- The target and the headers of a POST with the session in the path.
post_target :
    (hex : Hex) (client : ClientConfig) (sid : SessionId) (seq : ℕ)
    → client.session_placement ≡ in_path
    → (post_request hex client sid seq).target ≡ with_slash (client.path_prefix) ++ to_hex hex sid
unfolding post_request build_request compose_path
post_target hex client sid seq cp = rw cp refl

post_headers :
    (hex : Hex) (client : ClientConfig) (sid : SessionId) (seq : ℕ)
    → client.session_placement ≡ in_path
    → client.seq_placement ≡ in_header
    → (post_request hex client sid seq).headers
      ≡ (host_header, client.host)
        ∷ (content_type, codes "application/grpc")
        ∷ (client.seq_header, to_string seq)
        ∷ []
unfolding post_request build_request session_headers seq_headers type_headers
post_headers hex client sid seq cp cs = rw (cp, cs) refl

sequence_at :
    (head : Head) (server : ServerConfig) (seq : ℕ)
    → seq < 18446744073709551616
    → server.seq_placement ≡ in_header
    → head.header (server.seq_header) ≡ some (to_string seq)
    → sequence head server ≡ ok seq
unfolding sequence seq_text
sequence_at head server seq small ss there =
    rw (sequence, ss, there, parse_u64-to_string seq small) refl

post_method :
    (hex : Hex) (client : ClientConfig) (sid : SessionId) (seq : ℕ)
    → (post_request hex client sid seq).is_get ≡ false
unfolding post_request build_request
post_method hex client sid seq = refl

session_id_of_post :
    (hex : Hex)
    → IsHex hex
    → (client : ClientConfig) (server : ServerConfig) (sid : SessionId) (seq : ℕ) (head : Head)
    → IsSessionId sid
    → client.session_placement ≡ in_path
    → server.session_placement ≡ in_path
    → client.path_prefix ≡ server.path_prefix
    → host_pinned head (server.host) ≡ true
    → NoMark ((post_request hex client sid seq).target)
    → ReadFrom (post_request hex client sid seq) head
    → session_id hex head server ≡ ok (sid, [])
session_id_of_post hex is client server sid seq head good cp sp prefix host mark from =
    let (sep, e, shape) = with_slash-sep (client.path_prefix) in
    session_id-to_hex-to_uuid hex is server head sid sep [] good shape at_end host sp
      (inl (from.plain_path mark ∙ post_target hex client sid seq cp ∙ joined sep e))
  where
    joined :
        (sep : List ℕ)
        → with_slash (client.path_prefix) ≡ client.path_prefix ++ sep
        → with_slash (client.path_prefix) ++ to_hex hex sid
          ≡ server.path_prefix ++ (sep ++ (to_hex hex sid ++ []))
    joined sep e =
        rw
          (
            e,
            append_assoc (client.path_prefix) sep (to_hex hex sid),
            append-nil (to_hex hex sid),
            prefix,
          )
          refl

-- By default, the session in the path and the number in a header, the server finds in a POST of the client the
-- session and the number that the client gave it, whether the prefix ends with a slash or not, provided that
-- both are configured alike, the target holds no question mark, and the number's header is none of those that
-- the client sets anyway.
pub post_request-session_id-sequence :
    (hex : Hex)
    → IsHex hex
    → (client : ClientConfig) (server : ServerConfig) (sid : SessionId) (seq : ℕ) (head : Head)
    → IsSessionId sid
    → seq < 18446744073709551616
    → client.session_placement ≡ in_path
    → server.session_placement ≡ in_path
    → client.seq_placement ≡ in_header
    → server.seq_placement ≡ in_header
    → client.path_prefix ≡ server.path_prefix
    → client.seq_header ≡ server.seq_header
    → IsFree (server.seq_header)
    → host_pinned head (server.host) ≡ true
    → NoMark ((post_request hex client sid seq).target)
    → ReadFrom (post_request hex client sid seq) head
    → (session_id hex head server ≡ ok (sid, [])) × (sequence head server ≡ ok seq)
post_request-session_id-sequence hex is client server sid seq head good small cp sp cs ss prefix key
      free host mark from =
    (
      session_id_of_post hex is client server sid seq head good cp sp prefix host mark from,
      sequence_at head server seq small ss (from.headers (server.seq_header) ∙ there),
    )
  where
    there :
        find_header (server.seq_header) ((post_request hex client sid seq).headers)
        ≡ some (to_string seq)
    there =
        rw (post_headers hex client sid seq cp cs, key)
          (find_header-free (server.seq_header) _ _ (to_string seq) free)

sequence_absent :
    (server : ServerConfig) (head : Head)
    → server.seq_placement ≡ in_query
    → head.query ≡ none
    → sequence head server ≡ err missing_sequence
unfolding sequence seq_text query_value find_value split split_once unwrap_or
sequence_absent server head ss none_there = rw (sequence, ss, none_there) refl

-- The number is lost where the configuration places it in the query: the client's code leaves it out, taking it
-- to be in the URI already. With the session in the path, every POST of such a client is refused by a server
-- that is configured alike, with the status 400, and nothing of it is kept.
pub handle-post_request-in_query :
    (hex : Hex)
    → IsHex hex
    → (client : ClientConfig) (server : ServerConfig) (sid : SessionId) (seq : ℕ) (req : Request)
      (d : Dispatcher)
    → IsSessionId sid
    → server.mode ≡ packet_up
    → client.session_placement ≡ in_path
    → server.session_placement ≡ in_path
    → client.seq_placement ≡ in_query
    → server.seq_placement ≡ in_query
    → client.path_prefix ≡ server.path_prefix
    → host_pinned (req.head) (server.host) ≡ true
    → NoMark ((post_request hex client sid seq).target)
    → ReadFrom (post_request hex client sid seq) (req.head)
    → handle hex server req d ≡ (d, ok (status bad_request_400))
unfolding handle is_packet_up
handle-post_request-in_query hex is client server sid seq req d good m cp sp cs ss prefix host mark
      from =
    rw
      (
        handle,
        m,
        session_id_of_post hex is client server sid seq (req.head) good cp sp prefix host mark from,
        from.same_method ∙ post_method hex client sid seq,
        sequence_absent server (req.head) ss (from.no_query mark),
      )
      refl
