-- ===== src/Gate/Passing.antt =====
-- What it takes for the gate to exit with 0.
use drift_mariadb_client.Base.{
  ◌≡◌, ◌↔◌, refl, ap, ◌∙◌, ◌⊎◌, inl, inr, arith, true, false, Option, none, some,
}
use drift_mariadb_client.Base.{List, [], ◌∷◌, Text, Option-cases, Bool-cases, text_eq}
use drift_mariadb_client.Gate.Process.{Code, Child, poll, started}
use drift_mariadb_client.Gate.Cases.{
  Reply, no_reply, bad_reply, reply, data_address, backend_address, Round, is_ready, same, decide,
  wait_ready,
}

-- A healthy reply that names the two addresses of this gate.
abbrev pub OurReply : Reply → Type 0
OurReply (reply h) =
    (h.ok ≡ true)
    × (h.data_listener ≡ some data_address)
    × (h.backend_listener ≡ some backend_address)
OurReply _ = ⊥

-- No reply, or one that is not healthy.
abbrev pub NoHealth : Reply → Type 0
NoHealth no_reply = Unit {0}
NoHealth bad_reply = ⊥
NoHealth (reply h) = h.ok ≡ false

-- The subprocess runs, and its own healthy reply is the first healthy one.
abbrev pub BecomesReady : List Round → Type 0
BecomesReady [] = ⊥
BecomesReady (r ∷ rounds) =
    (r.polled ≡ none) × (OurReply r.answer ⊎ (NoHealth r.answer × BecomesReady rounds))

same-some : (o : Option Text) (want : Text) → same o want ≡ true → o ≡ some want
same-some none want h = cc
same-some (some s) want h = ground arith

some-same : (o : Option Text) (want : Text) → o ≡ some want → same o want ≡ true
some-same none want h = cc
some-same (some s) want h = ground arith

decide-OurReply : (a : Reply) → decide a ≡ some is_ready → OurReply a
decide-OurReply no_reply h = cc
decide-OurReply bad_reply h = cc
decide-OurReply (reply h) e = elim (Bool-cases h.ok) [
  | inl ok ↦ elim (Bool-cases (same h.data_listener data_address)) [
    | inl d ↦ elim (Bool-cases (same h.backend_listener backend_address)) [
      | inl b ↦ (
        ok,
        same-some h.data_listener data_address d,
        same-some h.backend_listener backend_address b,
      )
      | inr b ↦ cc (rw (ok, d, b) at e)
    ]
    | inr d ↦ cc (rw (ok, d) at e)
  ]
  | inr ok ↦ cc (rw ok at e)
]

OurReply-decide : (a : Reply) → OurReply a → decide a ≡ some is_ready
OurReply-decide no_reply h = absurd h
OurReply-decide bad_reply h = absurd h
OurReply-decide (reply h) (ok, data_same, backend_same) = rw (
  ok,
  some-same h.data_listener data_address data_same,
  some-same h.backend_listener backend_address backend_same,
)

decide-NoHealth : (a : Reply) → decide a ≡ none → NoHealth a
decide-NoHealth no_reply h = tt
decide-NoHealth bad_reply h = cc
decide-NoHealth (reply h) e = ground arith

NoHealth-decide : (a : Reply) → NoHealth a → decide a ≡ none
NoHealth-decide no_reply h = refl
NoHealth-decide bad_reply h = absurd h
NoHealth-decide (reply h) e = ground arith

pub poll-alive :
    (answer : Option Code) (c : Child) → c.returncode ≡ none → (poll answer c).returncode ≡ answer
poll-alive answer c alive = rw alive refl

wait_ready-becomes :
    (rounds : List Round) (c : Child)
    → c.returncode ≡ none
    → (wait_ready rounds c).1 ≡ is_ready
    → BecomesReady rounds
unfolding wait_ready
wait_ready-becomes [] c alive h = cc
wait_ready-becomes (r ∷ rounds) c alive h =
    let polled = poll-alive r.polled c alive in
    elim (Option-cases r.polled) [
      | inl (code, e) ↦ cc (rw (wait_ready, polled, e) at h)
      | inr e ↦ elim (Option-cases (decide r.answer)) [
        | inl (d, made) ↦
            let here : d ≡ is_ready = rw (wait_ready, polled, e, made) at h in
            (e, inl (decide-OurReply r.answer (made ∙ ap some here)))
        | inr later ↦
            let rest : (wait_ready rounds (poll r.polled c)).1 ≡ is_ready =
              rw (wait_ready, polled, e, later) at h in
            (
              e,
              inr (
                decide-NoHealth r.answer later,
                wait_ready-becomes rounds (poll r.polled c) (polled ∙ e) rest,
              ),
            )
      ]
    ]

BecomesReady-reaches :
    (rounds : List Round) (c : Child)
    → c.returncode ≡ none
    → BecomesReady rounds
    → (wait_ready rounds c).1 ≡ is_ready
unfolding wait_ready
BecomesReady-reaches [] c alive h = absurd h
BecomesReady-reaches (r ∷ rounds) c alive (e, inl ours) =
    rw (wait_ready, poll-alive r.polled c alive, e, OurReply-decide r.answer ours)
BecomesReady-reaches (r ∷ rounds) c alive (e, inr (quiet, h)) =
    let polled = poll-alive r.polled c alive in
    rw (wait_ready, polled, e, NoHealth-decide r.answer quiet)
      (BecomesReady-reaches rounds (poll r.polled c) (polled ∙ e) h)

-- The gate takes a started proxy for ready exactly when the first healthy reply within the
-- deadline names the two addresses of this gate, no line before it was malformed, and the
-- subprocess was still running at each poll up to then.
pub wait_ready-BecomesReady :
    (rounds : List Round) → ((wait_ready rounds started).1 ≡ is_ready) ↔ BecomesReady rounds
wait_ready-BecomesReady rounds =
    (wait_ready-becomes rounds started refl, BecomesReady-reaches rounds started refl)
