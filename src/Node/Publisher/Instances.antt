-- ===== src/Node/Publisher/Instances.antt =====
-- Publications that are entered and closed: aioros/_node/_tcpros/_topic_publisher.py.
use aioros.Common.{
  ℕ, zero, suc, ◌≤◌, ◌+◌, ◌-◌, ◌≡◌, ◌⊎◌, refl, ap, ◌∙◌, true, false, List, [], ◌∷◌, ◌++◌, none,
  arith, ◌==◌, inl, inr, Bool-cases,
}
use aioros.Node.Publisher.{
  Publication, MasterCall, register_publisher, unregister_publisher, enter, aclose,
}

-- `n` times __aenter__ where no call raises: the publication, and the calls
abbrev pub enter_times : ℕ → Publication → Publication × List MasterCall
enter_times zero p = (p, [])
enter_times (suc n) p =
    let (p1, calls, done) = enter none p in let (p2, more) = enter_times n p1 in (p2, calls ++ more)

abbrev pub close_times : ℕ → Publication → Publication × List MasterCall
close_times zero p = (p, [])
close_times (suc n) p =
    let (p1, calls, done) = aclose none none p in
    let (p2, more) = close_times n p1 in (p2, calls ++ more)

enter_again :
    (n : ℕ) (p : Publication)
    → 1 ≤ p.instances
    → ((enter_times n p).0.instances ≡ n + p.instances) × ((enter_times n p).1 ≡ [])
unfolding enter
enter_again zero p h = (omega arith, refl)
enter_again (suc n) p h =
    let more : (p.instances == 0) ≡ false = ground arith in
    let p' = record p { instances = suc p.instances } in
    let (count, none_made) = enter_again n p' (omega arith) in
    rw more (count ∙ omega arith, none_made)

topic_name-enter_times : (n : ℕ) (p : Publication) → (enter_times n p).0.topic_name ≡ p.topic_name
unfolding enter
topic_name-enter_times zero p = refl
topic_name-enter_times (suc n) p = elim (Bool-cases (p.instances == 0)) [
  | inl first ↦ rw first (topic_name-enter_times n (record p { instances = 1 }))
  | inr more ↦ rw more (topic_name-enter_times n (record p { instances = suc p.instances }))
]

enter_first :
    (n : ℕ) (p : Publication)
    → p.instances ≡ 0
    → ((enter_times (suc n) p).0.instances ≡ suc n)
      × ((enter_times (suc n) p).1 ≡ register_publisher p.topic_name p.topic_type.type_name ∷ [])
      × ((enter_times (suc n) p).0.topic_name ≡ p.topic_name)
unfolding enter
enter_first n p h =
    let first : (p.instances == 0) ≡ true = ground arith in
    let p' = record p { instances = 1 } in
    let (count, none_made) = enter_again n p' (omega arith) in
    rw first (count ∙ omega arith, rw none_made refl, topic_name-enter_times n p')

close_nothing : (k : ℕ) (p : Publication) → (p.instances == 1) ≡ false → close_times k p ≡ (p, [])
unfolding aclose
close_nothing zero p h = refl
close_nothing (suc k) p h = rw h (close_nothing k p h)

close_last :
    (k : ℕ) (p : Publication)
    → p.instances ≡ 1
    → ((close_times (suc k) p).0.instances ≡ 0)
      × ((close_times (suc k) p).1 ≡ unregister_publisher p.topic_name ∷ [])
unfolding aclose
close_last k p h =
    let last : (p.instances == 1) ≡ true = ground arith in
    let p' = record p { instances = p.instances - 1; subscribers = [] } in
    let again : close_times k p' ≡ (p', []) = close_nothing k p' (ground (arith, h)) in
    rw (last, again) (omega arith, refl)

-- Entering a publication registers it with the master once, however often it is entered. If it was
-- entered once, the first of the closes unregisters it; if it was entered more than once, no close
-- does anything.
pub close_times-enter_times :
    (n k : ℕ) (p : Publication)
    → p.instances ≡ 0
    → 1 ≤ n
    → let (p', calls) = enter_times n p in
      let (p'', more) = close_times (suc k) p' in
      (calls ≡ register_publisher p.topic_name p.topic_type.type_name ∷ [])
      × (((n ≡ 1) × (p''.instances ≡ 0) × (more ≡ unregister_publisher p.topic_name ∷ []))
          ⊎ ((2 ≤ n) × (p'' ≡ p') × (more ≡ [])))
close_times-enter_times zero k p h le = absurd (omega arith)
close_times-enter_times (suc zero) k p h le =
    let (count, calls, name) = enter_first zero p h in
    let (closed, more) = close_last k (enter_times 1 p).0 count in
    (calls, inl (refl, closed, rw name at more))
close_times-enter_times (suc (suc n)) k p h le =
    let (count, calls, name) = enter_first (suc n) p h in
    let same = close_nothing (suc k) (enter_times (suc (suc n)) p).0 (ground (arith, count)) in
    (calls, inr (omega arith, ap (λ x. x.0) same, ap (λ x. x.1) same))
