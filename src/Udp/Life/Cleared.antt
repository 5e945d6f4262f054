-- ===== src/Udp/Life/Cleared.antt =====
-- The loop of `session_close` over the bindings of the session leaves none.
use bpf2socks.Prelude.{ℕ, List, [], ◌∷◌, ◌≡◌, ◌∙◌, ap, arith, length}
use bpf2socks.Bindings.{unlink}
use bpf2socks.Udp.{State}
use bpf2socks.Udp.Reply.{destroy_binding}
use bpf2socks.Udp.Life.{destroy_all}

unlink_head : (b : ℕ) (bs : List ℕ) → unlink b (b ∷ bs) ≡ bs
unfolding unlink
unlink_head b bs = ground arith

destroy_binding_list :
    (s : State) (i b : ℕ)
    → ((destroy_binding s i b).sessions i).bindings ≡ unlink b (s.sessions i).bindings
unfolding destroy_binding
destroy_binding_list s i b = ground arith

-- As many rounds as the session has bindings leave it without one.
destroy_all_emptied :
    (bs : List ℕ) (s : State) (i : ℕ)
    → (s.sessions i).bindings ≡ bs
    → ((destroy_all (length bs) s i).sessions i).bindings ≡ []
unfolding destroy_all
destroy_all_emptied [] s i e = e
destroy_all_emptied (b ∷ bs) s i e =
    rw (destroy_all, e)
      (destroy_all_emptied bs (destroy_binding s i b) i
        (destroy_binding_list s i b ∙ ap (unlink b) e ∙ unlink_head b bs))
