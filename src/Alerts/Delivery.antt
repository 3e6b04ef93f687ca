-- ===== src/Alerts/Delivery.antt =====
-- What a subscriber receives: impacts that were sent to it, in order, some of them dropped.
use mathlib.Core.Option
use mathlib.Core.List.{Sublistᴰ, append_assoc, append-nil}
use urban_goggles.Base.{
  true, false, ◌&&◌, ℕ, ℕ_eq, List, [], ◌∷◌, ◌++◌, ◌==◌, nat_eq_iff, Option, none, some, lookup,
  insert, lookup-insert, Map, arith, inl, inr, refl, ap, Option-cases, ◌∙◌, if◌then◌else◌,
  Bool-cases, ◌≡◌, ltb, length,
}
use urban_goggles.Transit.{TransferImpact}
use urban_goggles.Alerts.{
  Channel, AlertBroker, Action, subscribes, unsubscribes, sends, receives, act, run, subscribe,
  unsubscribe, publish, publish_each, send, offer, receive, take_first,
}

abbrev buffer_of : Option Channel → List TransferImpact
buffer_of none = []
buffer_of (some ch) = ch.buffer

-- What waits in the channel of a subscriber.
unfoldable pub waiting : ℕ → AlertBroker → List TransferImpact
waiting k b = buffer_of (lookup k b.channels)

abbrev members : Option TransferImpact → List TransferImpact
members none = []
members (some impact) = impact ∷ []

-- What one action hands to a subscriber, and what it sends to it.
unfoldable pub handed : ℕ → Action → AlertBroker → List TransferImpact
handed k (receives id) b = if id == k then members (receive id b).0 else []
handed k _ b = []

abbrev offered : ℕ → Action → List TransferImpact
offered k (sends id impact) = if id == k then impact ∷ [] else []
offered k _ = []

unfoldable pub received : ℕ → List Action → AlertBroker → List TransferImpact
received k [] b = []
received k (a ∷ rest) b = handed k a b ++ received k rest (act a b)

unfoldable pub sent_to : ℕ → List Action → List TransferImpact
sent_to k [] = []
sent_to k (a ∷ rest) = offered k a ++ sent_to k rest

module _ {A : Type 0} where
  sublist_refl : (xs : List A) → Sublistᴰ xs xs
  sublist_refl [] = Sublistᴰ.slnil
  sublist_refl (x ∷ xs) = Sublistᴰ.cons-cons refl (sublist_refl xs)

  sublist_trans :
      {ys zs : List A} → Sublistᴰ ys zs → {xs : List A} → Sublistᴰ xs ys → Sublistᴰ xs zs
  sublist_trans Sublistᴰ.slnil s = s
  sublist_trans (Sublistᴰ.cons t) s = Sublistᴰ.cons (sublist_trans t s)
  sublist_trans (Sublistᴰ.cons-cons e t) (Sublistᴰ.cons s) = Sublistᴰ.cons (sublist_trans t s)
  sublist_trans (Sublistᴰ.cons-cons e t) (Sublistᴰ.cons-cons d s) =
      Sublistᴰ.cons-cons (d ∙ e) (sublist_trans t s)

  sublist_start : (xs zs : List A) → Sublistᴰ xs (xs ++ zs)
  sublist_start [] [] = Sublistᴰ.slnil
  sublist_start [] (z ∷ zs) = Sublistᴰ.cons (sublist_start [] zs)
  sublist_start (x ∷ xs) zs = Sublistᴰ.cons-cons refl (sublist_start xs zs)

  sublist_after : (xs : List A) {ys zs : List A} → Sublistᴰ ys zs → Sublistᴰ (xs ++ ys) (xs ++ zs)
  sublist_after [] s = s
  sublist_after (x ∷ xs) s = Sublistᴰ.cons-cons refl (sublist_after xs s)

  sublist_before : (zs : List A) {xs ys : List A} → Sublistᴰ xs ys → Sublistᴰ (xs ++ zs) (ys ++ zs)
  sublist_before zs Sublistᴰ.slnil = sublist_refl zs
  sublist_before zs (Sublistᴰ.cons s) = Sublistᴰ.cons (sublist_before zs s)
  sublist_before zs (Sublistᴰ.cons-cons e s) = Sublistᴰ.cons-cons e (sublist_before zs s)

offer-sublist :
    (impact : TransferImpact) (ch : Channel)
    → Sublistᴰ (offer impact ch).buffer (ch.buffer ++ impact ∷ [])
unfolding offer
offer-sublist impact ch =
    elim (Bool-cases (ch.is_subscribed && ltb (length ch.buffer) ch.capacity)) [
      | inl room ↦ rw (room, offer) (sublist_refl _)
      | inr full ↦ rw (full, offer) (sublist_start ch.buffer (impact ∷ []))
    ]

waiting-insert :
    (k id : ℕ) (ch : Channel) (b : AlertBroker)
    → waiting k (record b { channels = insert id ch b.channels })
      ≡ (if id == k then ch.buffer else waiting k b)
unfolding waiting
waiting-insert k id ch b = ground (arith, lookup-insert id k ch b.channels)

lookup-publish_each :
    (k : ℕ) (impact : TransferImpact) (channels : Map ℕ Channel)
    → lookup k (publish_each impact channels) ≡ Option.map (offer impact) (lookup k channels)
unfolding publish_each lookup
lookup-publish_each k impact [] = refl
lookup-publish_each k impact ((id, ch) ∷ rest) = ground (arith, lookup-publish_each k impact rest)

-- For one subscriber, a whole `Publish` is the send to its own channel.
publish-send :
    (k : ℕ) (impact : TransferImpact) (b : AlertBroker)
    → waiting k (publish impact b) ≡ waiting k (send k impact b)
unfolding publish send lookup
publish-send k impact b =
    let each : waiting k (publish impact b)
        ≡ buffer_of (Option.map (offer impact) (lookup k b.channels)) =
      unfold waiting in ap buffer_of (lookup-publish_each k impact b.channels) in
    each ∙ elim (Option-cases (lookup k b.channels)) [
      | inl missing ↦ rw (send, missing) (unfold waiting in rw missing refl)
      | inr (ch, found) ↦
          rw (send, found, waiting-insert k k (offer impact ch) b, (nat_eq_iff k k).1 refl) refl
    ]

take_first-sublist :
    (k id : ℕ) (b : AlertBroker) (found : Option Channel)
    → lookup id b.channels ≡ found
    → Sublistᴰ
        ((if id == k then members (take_first b id found).0 else [])
          ++ waiting k (take_first b id found).1)
        (waiting k b)
unfolding take_first
take_first-sublist k id b none e = elim (Bool-cases (id == k)) [
  | inl own ↦ rw own (sublist_refl _)
  | inr other ↦ rw other (sublist_refl _)
]
take_first-sublist k id b (some ch) e = go ch.buffer refl
  where
    go :
        (buffer : List TransferImpact)
        → ch.buffer ≡ buffer
        → Sublistᴰ
            ((if id == k then members (take_first b id (some ch)).0 else [])
              ++ waiting k (take_first b id (some ch)).1)
            (waiting k b)
    go [] empty = elim (Bool-cases (id == k)) [
      | inl own ↦ rw (empty, take_first, own) (sublist_refl _)
      | inr other ↦ rw (empty, take_first, other) (sublist_refl _)
    ]
    go (impact ∷ rest) full =
        let next = waiting-insert k id (record ch { buffer = rest }) b in
        elim (Bool-cases (id == k)) [
          | inl own ↦
              let here : waiting k b ≡ impact ∷ rest =
                unfold waiting in ground (arith, e, own, full, nat_eq_iff id k) in
              rw (full, take_first, next, own, here) (sublist_refl _)
          | inr other ↦ rw (full, take_first, next, other) (sublist_refl _)
        ]

act-sublist :
    (k : ℕ) (a : Action) (b : AlertBroker)
    → Sublistᴰ (handed k a b ++ waiting k (act a b)) (waiting k b ++ offered k a)
unfolding act waiting handed subscribe unsubscribe send receive
act-sublist k (subscribes n) b = elim (Bool-cases (b.next_id == k)) [
  | inl own ↦
      rw
        (
          lookup-insert b.next_id k (record { capacity = n; buffer = []; is_subscribed = true })
              b.channels,
          own,
        )
        (sublist_start [] _)
  | inr other ↦
      rw
        (
          lookup-insert b.next_id k (record { capacity = n; buffer = []; is_subscribed = true })
              b.channels,
          other,
        )
        (sublist_start _ [])
]
act-sublist k (unsubscribes id) b = elim (Option-cases (lookup id b.channels)) [
  | inl missing ↦ rw (unsubscribe, missing) (sublist_start _ [])
  | inr (ch, found) ↦
      let after = waiting-insert k id (record ch { is_subscribed = false }) b in
      elim (Bool-cases (id == k)) [
        | inl own ↦
            let here : waiting k b ≡ ch.buffer =
              unfold waiting in ground (arith, own, found, nat_eq_iff id k) in
            rw (unsubscribe, found, after, own, here) (sublist_start _ [])
        | inr other ↦ rw (unsubscribe, found, after, other) (sublist_start _ [])
      ]
]
act-sublist k (sends id impact) b = elim (Option-cases (lookup id b.channels)) [
  | inl missing ↦ rw (send, missing) (sublist_start _ _)
  | inr (ch, found) ↦
      let after = waiting-insert k id (offer impact ch) b in
      elim (Bool-cases (id == k)) [
        | inl own ↦
            let here : waiting k b ≡ ch.buffer =
              unfold waiting in ground (arith, own, found, nat_eq_iff id k) in
            rw (send, found, after, own, here) (offer-sublist impact ch)
        | inr other ↦ rw (send, found, after, other) (sublist_start _ [])
      ]
]
act-sublist k (receives id) b =
    rw (append-nil (waiting k b)) (take_first-sublist k id b (lookup id b.channels) refl)

-- Over any actions, what a subscriber receives and what still waits for it at the end are, in
-- order, impacts that waited for it at the start and impacts sent to it since: none twice, none made
-- up, none overtaken by another.
pub received-sublist :
    (k : ℕ) (actions : List Action) (b : AlertBroker)
    → Sublistᴰ
        (received k actions b ++ waiting k (run actions b))
        (waiting k b ++ sent_to k actions)
unfolding received sent_to run
received-sublist k [] b = sublist_start (waiting k b) []
received-sublist k (a ∷ rest) b =
    rw
      (
        append_assoc (handed k a b) (received k rest (act a b)) (waiting k (run rest (act a b))),
        ← append_assoc (waiting k b) (offered k a) (sent_to k rest),
      )
      (sublist_trans (sublist_before (sent_to k rest) (act-sublist k a b)) (
        rw (append_assoc (handed k a b) (waiting k (act a b)) (sent_to k rest))
          (sublist_after (handed k a b) (received-sublist k rest (act a b)))))
