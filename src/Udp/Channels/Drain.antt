-- ===== src/Udp/Channels/Drain.antt =====
-- The memory of queued datagrams: retiring the channels of a session gives back exactly the bytes
-- that their packets were charged.
use bpf2socks.Prelude.{ℕ, suc, ◌+◌, ◌≤◌, List, [], ◌∷◌, ◌≡◌, ◌≢◌, refl, ◌∙◌, ap, arith, length}
use bpf2socks.Bindings.{unlink}
use bpf2socks.Lru.Chain.{Absent, Distinct}
use bpf2socks.Udp.{State, Channel, Packet}
use bpf2socks.Udp.Queue.{release_packet}
use bpf2socks.Udp.Channels.{set_channel, drain, detach, retire, retire_all, release_session}

abbrev pub bytes_of : List Packet → ℕ
bytes_of [] = 0
bytes_of (p ∷ ps) = p.allocation_bytes + bytes_of ps

abbrev pub channel_bytes : (ℕ → Channel) → List ℕ → ℕ
channel_bytes f [] = 0
channel_bytes f (c ∷ cs) = bytes_of (f c).queue + channel_bytes f cs

-- `t` is `s` after bytes of the channel `c` of the session `i` were given back.
record Returned (s : State) (i c bytes : ℕ) (t : State) : Type 0 where
  used : t.budget_used + bytes ≡ s.budget_used
  others : (d : ℕ) → c ≢ d → t.channels d ≡ s.channels d
  listed : (t.sessions i).channels ≡ (s.sessions i).channels

release_packet-Returned :
    (s : State) (i c : ℕ) (p : Packet)
    → p.allocation_bytes ≤ s.budget_used
    → Returned s i c p.allocation_bytes (release_packet s i p)
unfolding release_packet
release_packet-Returned s i c p h = record {
  used = ground arith;
  others = λ d ne. refl;
  listed = ground arith;
}

drain-Returned :
    (s : State) (i c : ℕ) (ps : List Packet)
    → bytes_of ps ≤ s.budget_used
    → Returned s i c (bytes_of ps) (drain s i c ps)
unfolding drain
drain-Returned s i c [] h = record { used = omega arith; others = λ d ne. refl; listed = refl }
drain-Returned s i c (p ∷ ps) h =
    let s1 = set_channel s c (record (s.channels c) { queue = ps }) in
    let r = release_packet-Returned s1 i c p (omega arith) in
    let q = drain-Returned (release_packet s1 i p) i c ps (omega (arith, r.used)) in
    record {
      used = omega (arith, q.used, r.used);
      others = λ d ne. q.others d ne ∙ r.others d ne ∙ ground (arith, ne);
      listed = q.listed ∙ r.listed;
    }

-- The session has lost the channel, and the budget its bytes.
record Retired (s : State) (i c : ℕ) (t : State) : Type 0 where
  used : t.budget_used + bytes_of (s.channels c).queue ≡ s.budget_used
  others : (d : ℕ) → c ≢ d → t.channels d ≡ s.channels d
  listed : (t.sessions i).channels ≡ unlink c (s.sessions i).channels

detach_lem :
    (s : State) (i c : ℕ)
    → let t = detach s i c in
      (t.budget_used ≡ s.budget_used)
      × ((t.channels c).queue ≡ (s.channels c).queue)
      × ((t.sessions i).channels ≡ unlink c (s.sessions i).channels)
unfolding detach
detach_lem s i c = ground arith

detach_others : (s : State) (i c d : ℕ) → c ≢ d → (detach s i c).channels d ≡ s.channels d
unfolding detach
detach_others s i c d ne = ground (arith, ne)

retire-Retired :
    (s : State) (i c : ℕ)
    → bytes_of (s.channels c).queue ≤ s.budget_used
    → Retired s i c (retire s i c)
unfolding retire
retire-Retired s i c h =
    let d = detach_lem s i c in
    let q = ap bytes_of d.1 in
    let r =
      drain-Returned (detach s i c) i c ((detach s i c).channels c).queue (omega (arith, d.0, q)) in
    record {
      used = omega (arith, r.used, d.0, q);
      others = λ e ne. ground (arith, ne, r.others e ne, detach_others s i c e ne);
      listed = r.listed ∙ d.2;
    }

same_bytes :
    (f g : ℕ → Channel) (c : ℕ) (cs : List ℕ)
    → ((d : ℕ) → c ≢ d → g d ≡ f d)
    → Absent c cs
    → channel_bytes g cs ≡ channel_bytes f cs
same_bytes f g c [] h a = refl
same_bytes f g c (d ∷ ds) h a =
    rw (h d a.0) (ap (λ n. bytes_of (f d).queue + n) (same_bytes f g c ds h a.1))

unlink_head : (c : ℕ) (cs : List ℕ) → unlink c (c ∷ cs) ≡ cs
unfolding unlink
unlink_head c cs = ground arith

retire_step :
    (n : ℕ) (s : State) (i c : ℕ) (cs : List ℕ)
    → (s.sessions i).channels ≡ c ∷ cs
    → retire_all (suc n) s i ≡ retire_all n (retire s i c) i
unfolding retire_all
retire_step n s i c cs e = rw (retire_all, e) refl

-- All channels of a session, one after the other.
retire_all-bytes :
    (cs : List ℕ) (s : State) (i : ℕ)
    → (s.sessions i).channels ≡ cs
    → Distinct cs
    → channel_bytes s.channels cs ≤ s.budget_used
    → ((retire_all (length cs) s i).budget_used + channel_bytes s.channels cs ≡ s.budget_used)
      × (((retire_all (length cs) s i).sessions i).channels ≡ [])
unfolding retire_all
retire_all-bytes [] s i e d h = (omega arith, e)
retire_all-bytes (c ∷ cs) s i e d h =
    let t = retire s i c in
    let r = retire-Retired s i c (omega arith) in
    let same = same_bytes s.channels t.channels c cs r.others d.0 in
    let rest : (t.sessions i).channels ≡ cs = r.listed ∙ ap (unlink c) e ∙ unlink_head c cs in
    let q = retire_all-bytes cs t i rest d.1 (omega (arith, r.used, same)) in
    let step = retire_step (length cs) s i c cs e in
    (rw step (omega (arith, q.0, r.used, same)), rw step q.1)

-- Releasing the downlink of a session gives back the bytes of all packets in its channels, and
-- leaves it no channel.
pub release_session-bytes :
    (s : State) (i : ℕ)
    → Distinct (s.sessions i).channels
    → channel_bytes s.channels (s.sessions i).channels ≤ s.budget_used
    → ((release_session s i).budget_used + channel_bytes s.channels (s.sessions i).channels
        ≡ s.budget_used)
      × (((release_session s i).sessions i).channels ≡ [])
unfolding release_session
release_session-bytes s i d h =
    let r = retire_all-bytes (s.sessions i).channels s i refl d h in (r.0, ground (arith, r.1))
