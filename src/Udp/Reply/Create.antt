-- ===== src/Udp/Reply/Create.antt =====
-- `create_binding` of bridge/udp_session.c, and its two callers.
use bpf2socks.Prelude.{
  ℕ, suc, ◌+◌, ◌==◌, Bool, true, false, ◌&&◌, ◌||◌, not, Option, none, some, List, [], ◌∷◌, ◌++◌,
  if◌then◌else◌, take, drop, length, replicate, Result, ok, err,
}
use bpf2socks.Prelude.Outcome.{Outcome, done, ◌>>=◌}
use bpf2socks.Bindings.{Sockaddr, Index, af_inet, af_inet6, insert}
use bpf2socks.Token.{Mode}
use bpf2socks.Udp.{State, Address, set_session, set_binding}
use bpf2socks.Udp.Reply.{alloc_binding, binding_set_reply, release_binding, ensure_binding_capacity}

-- What the code reads of struct bpf2socks_udp_client_packet.
pub record ClientPacket : Type 0 where
  pub client_addr : Address
  pub token_family : ℕ
  pub token_addr : List ℕ
  pub has_original_dst : Bool
  pub original_from_socket : Bool
  pub connected_udp_token : Bool
  pub token_lookup_mode : Mode
  pub original_dst : Sockaddr
  pub payload : List ℕ

abbrev pub is_inet : Sockaddr → Bool
is_inet original = (original.family == af_inet) || (original.family == af_inet6)

abbrev is_zero_client : Mode → Bool
is_zero_client Mode.zero_client = true
is_zero_client _ = false

-- `bpf2socks_udp_packet_needs_original_reply_socket`.
unfoldable pub packet_needs_original_reply_socket : ClientPacket → Bool
packet_needs_original_reply_socket packet =
    if packet.connected_udp_token
    then false
    else (if is_zero_client packet.token_lookup_mode then false else is_inet packet.original_dst)

-- The token bytes of a new binding: at most 16, the rest zero.
abbrev pub token_bytes : List ℕ → List ℕ
token_bytes token = take 16 token ++ drop (length (take 16 token)) (replicate 16 0)

-- A binding that has entered the index joins the lists of its session and of the worker.
unfoldable pub link_binding : State → ℕ → ℕ → Bool → State
link_binding s i b fullcone =
    let v = s.sessions i in
    let s1 = set_session s i (record v {
      bindings = b ∷ v.bindings;
      binding_lru = v.binding_lru ++ b ∷ [];
      binding_count = v.binding_count + 1;
    }) in
    record s1 {
      binding_lru = s1.binding_lru ++ b ∷ [];
      binding_count = s1.binding_count + 1;
      stats = record s1.stats {
        binding_creates = s1.stats.binding_creates + 1;
        fullcone_binding_creates =
            if fullcone
            then s1.stats.fullcone_binding_creates + 1
            else s1.stats.fullcone_binding_creates;
      };
    }

-- What a caller asks for: the destination, the token (empty where there is none) and how replies go.
pub record Request : Type 0 where
  pub original : Sockaddr
  pub token : List ℕ
  pub connected_udp_token : Bool
  pub needs_original_reply_socket : Bool
  pub fullcone : Bool

-- The fields of a binding before its reply socket is opened.
abbrev pub fill_binding : State → ℕ → Request → ℕ → State
fill_binding s b r now = set_binding s b (record (s.bindings b) {
  original_dst = r.original;
  token_addr = token_bytes r.token;
  last_seen_ms = now;
  connected_udp_token = r.connected_udp_token;
})

abbrev pub own_binding : State → ℕ → ℕ → State
own_binding s i b = set_binding s b (record (s.bindings b) { used = true; owner = some i })

abbrev pub enter_binding : State → ℕ → ℕ → Bool → Result Index → State × Option ℕ
enter_binding s i b fullcone (err e) = (release_binding s b, none)
enter_binding s i b fullcone (ok index) =
    (link_binding (record s { binding_index = index }) i b fullcone, some b)

-- A binding with its reply socket, or without one where it needs none.
unfoldable pub own_and_enter : State → ℕ → ℕ → Bool → State × Option ℕ
own_and_enter s i b fullcone =
    let s1 = own_binding s i b in
    enter_binding s1 i b fullcone (insert s1.bindings s1.binding_index b)

-- `socket` is what bpf2socks_udp_reply_socket_create returns: a descriptor and whether it is raw.
abbrev pub with_reply : State → ℕ → ℕ → Bool → Bool → Option (ℕ × Bool) → State × Option ℕ
with_reply s i b fullcone false socket = own_and_enter s i b fullcone
with_reply s i b fullcone true none = (release_binding s b, none)
with_reply s i b fullcone true (some (fd, reply_raw)) =
    own_and_enter (binding_set_reply s b fd reply_raw) i b fullcone

abbrev pub create_allocated :
    (Sockaddr → Option (ℕ × Bool)) → ℕ → ℕ → Request → State → Result (ℕ × State) → State × Option ℕ
create_allocated socket now i r s (err e) = (s, none)
create_allocated socket now i r s (ok (b, s1)) =
    with_reply (fill_binding s1 b r now) i b r.fullcone r.needs_original_reply_socket
      (socket r.original)

-- `create_binding`, at the time `now`: the state, and the binding unless it could not be created.
unfoldable pub create_binding :
    (Sockaddr → Option (ℕ × Bool)) → ℕ → State → ℕ → Request → Outcome (State × Option ℕ)
create_binding socket now s i r = do
  (s1, room) ← ensure_binding_capacity (suc (length s.binding_lru)) s
  done (if room then create_allocated socket now i r s1 (alloc_binding s1) else (s1, none))

-- `bpf2socks_udp_binding_create_for_packet`.
pub create_for_packet :
    (Sockaddr → Option (ℕ × Bool)) → ℕ → State → ℕ → ClientPacket → Outcome (State × Option ℕ)
create_for_packet socket now s i packet = create_binding socket now s i (record {
  original = packet.original_dst;
  token = take (if packet.token_family == af_inet6 then 16 else 4) packet.token_addr;
  connected_udp_token = packet.connected_udp_token;
  needs_original_reply_socket =
      not packet.connected_udp_token
      && (packet.original_from_socket || packet_needs_original_reply_socket packet);
  fullcone = false;
})

-- `bpf2socks_udp_binding_create_fullcone`.
pub create_fullcone :
    (Sockaddr → Option (ℕ × Bool)) → ℕ → State → ℕ → Sockaddr → Outcome (State × Option ℕ)
create_fullcone socket now s i remote = create_binding socket now s i (record {
  original = remote;
  token = [];
  connected_udp_token = false;
  needs_original_reply_socket = is_inet remote;
  fullcone = true;
})
