-- ===== src/Syslog/Routes.antt =====
-- src/syslog.rs, `SyslogSink::deliver`: when a delivery succeeds, and over which path.
use xoslog.Prelude.{
  ◌≡◌, ◌∙◌, ◌++◌, ◌⊎◌, ap, Bool, true, false, List, All, Bool-cases, if_true, if_false, inl, inr,
  sym, Option, none, some, [], ◌∷◌, arith, Option-cases,
}
use xoslog.Prelude.Text.{Text, Bytes}
use xoslog.Level.{Level}
use xoslog.Time.{Timestamp}
use xoslog.Syslog.Deliver.{
  IoError, SyslogSink, Net, first_reachable, reconnect, sink_packet, retry, send_over,
  deliver_connected, deliver,
}

-- The first path of a list that can be connected to: none in front of it can.
pub data IsFirst (connects : Text → Bool) (paths : List Text) (q : Text) : Type 0 where
  first_of :
      (before after : List Text)
      → paths ≡ before ++ (q ∷ after)
      → All (λ p. connects p ≡ false) before
      → connects q ≡ true
      → IsFirst connects paths q

first_reachable-append :
    (connects : Text → Bool) (before after : List Text) (q : Text)
    → All (λ p. connects p ≡ false) before
    → connects q ≡ true
    → first_reachable connects (before ++ (q ∷ after)) ≡ some q
unfolding first_reachable
first_reachable-append connects [] after q h k = if_true _ _ k
first_reachable-append connects (p ∷ before) after q (hp, h) k =
    if_false _ _ hp ∙ first_reachable-append connects before after q h k

IsFirst-first_reachable :
    (connects : Text → Bool) (paths : List Text) (q : Text)
    → IsFirst connects paths q
    → first_reachable connects paths ≡ some q
IsFirst-first_reachable connects paths q (first_of before after e h k) =
    ap (first_reachable connects) e ∙ first_reachable-append connects before after q h k

none_path : {p : Text} → none ≡ some p → ⊥
none_path h = cc

path_or : Option Text → Text
path_or none = []
path_or (some p) = p

some_path : {p q : Text} → some p ≡ some q → p ≡ q
unfolding path_or
some_path h = ap path_or h

first_reachable-IsFirst :
    (connects : Text → Bool) (paths : List Text) (q : Text)
    → first_reachable connects paths ≡ some q
    → IsFirst connects paths q
unfolding first_reachable
first_reachable-IsFirst connects [] q h = absurd (none_path h)
first_reachable-IsFirst connects (p ∷ paths) q h = elim (Bool-cases (connects p)) [
  | inl e ↦
      let same = some_path (sym (if_true _ _ e) ∙ h) in
      first_of [] paths (ap (λ q. q ∷ paths) same) tt (sym (ap connects same) ∙ e)
  | inr e ↦ elim (first_reachable-IsFirst connects paths q (sym (if_false _ _ e) ∙ h)) [
    | first_of before after same closed opens ↦
        first_of (p ∷ before) after (ap (λ r. p ∷ r) same) (e, closed) opens
  ]
]

-- The ways to deliver a packet over a path: over the open socket, or, where that fails or there is
-- none, over the first path that can be connected to, which is tried again once if a send over a
-- socket that was just opened fails.
pub data Route (net again : Net) (s : SyslogSink) (packet : Bytes) (q : Text) : Type 0 where
  over_open : s.socket ≡ some q → net.sends q packet ≡ none → Route net again s packet q
  over_new :
      s.socket ≡ none
      → IsFirst net.connects s.paths q
      → net.sends q packet ≡ none
      → Route net again s packet q
  over_next :
      (p : Text) (e : IoError)
      → (s.socket ≡ some p) ⊎ ((s.socket ≡ none) × IsFirst net.connects s.paths p)
      → net.sends p packet ≡ some e
      → IsFirst again.connects s.paths q
      → again.sends q packet ≡ none
      → Route net again s packet q

module _ (net again : Net) (l : Level) (t : Timestamp) (formatted : Bytes) (s : SyslogSink) where
  abbrev pub Delivers : Text → Type 0
  Delivers q =
      ((deliver net again l t formatted s).result ≡ none)
      × ((deliver net again l t formatted s).sent ≡ (q, sink_packet s l t formatted) ∷ [])
      × ((deliver net again l t formatted s).sink ≡ record s { socket = some q })

  Route-Delivers : (q : Text) → Route net again s (sink_packet s l t formatted) q → Delivers q
  unfolding deliver deliver_connected send_over retry reconnect
  Route-Delivers q (over_open h k) = ground arith
  Route-Delivers q (over_new h first k) =
      let r = IsFirst-first_reachable net.connects s.paths q first in ground arith
  Route-Delivers q (over_next p e (inl h) k next m) =
      let r = IsFirst-first_reachable again.connects s.paths q next in ground arith
  Route-Delivers q (over_next p e (inr (h, first)) k next m) =
      let r = IsFirst-first_reachable net.connects s.paths p first in
      let r2 = IsFirst-first_reachable again.connects s.paths q next in ground arith

  abbrev OpenOrFirst : Text → Type 0
  OpenOrFirst p = (s.socket ≡ some p) ⊎ ((s.socket ≡ none) × IsFirst net.connects s.paths p)

  -- After a send that failed, over a socket that was open or has just been opened.
  second-Route :
      (p : Text) (e : IoError)
      → OpenOrFirst p
      → net.sends p (sink_packet s l t formatted) ≡ some e
      → (deliver net again l t formatted s).result ≡ none
      → (q : Text) × Route net again s (sink_packet s l t formatted) q
  unfolding deliver deliver_connected send_over retry reconnect
  second-Route p e place k h = elim (Option-cases (first_reachable again.connects s.paths)) [
    | inl none_left ↦ absurd (failed none_left place)
    | inr (q, r) ↦
        let next = first_reachable-IsFirst again.connects s.paths q r in
        elim (Option-cases (again.sends q (sink_packet s l t formatted))) [
          | inl m ↦ (q, over_next p e place k next m)
          | inr (x, m) ↦ absurd (failed_again q r x m place)
        ]
  ]
    where
      failed : first_reachable again.connects s.paths ≡ none → OpenOrFirst p → ⊥
      failed n (inl o) = ground arith
      failed n (inr (o, first)) =
          let f = IsFirst-first_reachable net.connects s.paths p first in ground arith

      failed_again :
          (q : Text)
          → first_reachable again.connects s.paths ≡ some q
          → (x : IoError) → again.sends q (sink_packet s l t formatted) ≡ some x
          → OpenOrFirst p
          → ⊥
      failed_again q r x m (inl o) = ground arith
      failed_again q r x m (inr (o, first)) =
          let f = IsFirst-first_reachable net.connects s.paths p first in ground arith

  found-Route :
      (deliver net again l t formatted s).result ≡ none
      → (q : Text) × Route net again s (sink_packet s l t formatted) q
  unfolding deliver deliver_connected send_over retry reconnect
  found-Route h = elim (Option-cases s.socket) [
    | inr (p, o) ↦ elim (Option-cases (net.sends p (sink_packet s l t formatted))) [
      | inl k ↦ (p, over_open o k)
      | inr (e, k) ↦ second-Route p e (inl o) k h
    ]
    | inl o ↦ elim (Option-cases (first_reachable net.connects s.paths)) [
      | inl n ↦ absurd (closed o n)
      | inr (p, r) ↦
          let first = first_reachable-IsFirst net.connects s.paths p r in
          elim (Option-cases (net.sends p (sink_packet s l t formatted))) [
            | inl k ↦ (p, over_new o first k)
            | inr (e, k) ↦ second-Route p e (inr (o, first)) k h
          ]
    ]
  ]
    where
      closed : s.socket ≡ none → first_reachable net.connects s.paths ≡ none → ⊥
      closed o n = ground arith

  -- A delivery succeeds exactly if there is a route: its open socket takes the packet, or, where this
  -- fails or no socket is open, the first path that can be connected to does, after one more attempt
  -- at most. Along any route the packet is sent once, over that path, to which the sink is then
  -- connected.
  pub deliver_succeeds_iff :
      ((deliver net again l t formatted s).result ≡ none
        → (q : Text) × Route net again s (sink_packet s l t formatted) q)
      × ((q : Text) → Route net again s (sink_packet s l t formatted) q → Delivers q)
  deliver_succeeds_iff = (found-Route, Route-Delivers)
