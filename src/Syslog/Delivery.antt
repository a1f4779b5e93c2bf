-- ===== src/Syslog/Delivery.antt =====
-- src/syslog.rs, `SyslogSink::deliver`: what one call sends.
use xoslog.Prelude.{
  ◌≡◌, inl, inr, refl, sym, subst, Option, none, some, [], ◌∷◌, arith, Option-cases,
}
use xoslog.Prelude.Text.{Text, Bytes}
use xoslog.Level.{Level}
use xoslog.Time.{Timestamp}
use xoslog.Syslog.Deliver.{
  IoError, no_socket_available, SyslogSink, Net, Outcome, reconnect, sink_packet, retry, send_over,
  deliver_connected, connect_first, deliver,
}

-- A delivery succeeds exactly if one datagram was taken: the packet of the record, once, over the
-- socket that the sink holds afterwards. After an error nothing was sent.
pub data IsAtMostOnce (packet : Bytes) (o : Outcome) : Type 0 where
  delivered :
      (p : Text)
      → o.result ≡ none
      → o.sink.socket ≡ some p
      → o.sent ≡ (p, packet) ∷ []
      → IsAtMostOnce packet o
  refused : (e : IoError) → o.result ≡ some e → o.sent ≡ [] → IsAtMostOnce packet o

retry-IsAtMostOnce :
    (net : Net) (first : IoError) (packet : Bytes) (r : Option IoError × SyslogSink)
    → IsAtMostOnce packet (retry net first packet r)
unfolding retry
retry-IsAtMostOnce net first packet (some e, s) = refused first refl refl
retry-IsAtMostOnce net first packet (none, s) = elim (Option-cases s.socket) [
  | inl n ↦ refused first (ground arith) (ground arith)
  | inr (p, e) ↦ elim (Option-cases (net.sends p packet)) [
    | inl ok ↦ delivered p (ground arith) (ground arith) (ground arith)
    | inr (x, bad) ↦ refused x (ground arith) (ground arith)
  ]
]

send_over-IsAtMostOnce :
    (net again : Net) (packet : Bytes) (o : Option Text) (s : SyslogSink)
    → s.socket ≡ o
    → IsAtMostOnce packet (send_over net again packet o s)
unfolding send_over
send_over-IsAtMostOnce net again packet none s e = refused no_socket_available refl refl
send_over-IsAtMostOnce net again packet (some p) s e = elim (Option-cases (net.sends p packet)) [
  | inl ok ↦ delivered p (ground arith) (ground arith) (ground arith)
  | inr (x, bad) ↦
      subst (IsAtMostOnce packet) (sym (retried x bad))
        (retry-IsAtMostOnce again x packet (reconnect again s))
]
  where
    retried :
        (x : IoError)
        → net.sends p packet ≡ some x
        → send_over net again packet (some p) s ≡ retry again x packet (reconnect again s)
    retried x bad = rw (bad, send_over) refl

deliver_connected-IsAtMostOnce :
    (net again : Net) (l : Level) (t : Timestamp) (formatted : Bytes)
    (r : Option IoError × SyslogSink)
    → IsAtMostOnce (sink_packet r.1 l t formatted) (deliver_connected net again l t formatted r)
unfolding deliver_connected
deliver_connected-IsAtMostOnce net again l t formatted (some e, s) = refused e refl refl
deliver_connected-IsAtMostOnce net again l t formatted (none, s) =
    send_over-IsAtMostOnce net again (sink_packet s l t formatted) s.socket s refl

packet-connect_first :
    (net : Net) (o : Option Text) (s : SyslogSink) (l : Level) (t : Timestamp) (formatted : Bytes)
    → sink_packet (connect_first net o s).1 l t formatted ≡ sink_packet s l t formatted
unfolding reconnect
packet-connect_first net none s l t formatted = ground arith
packet-connect_first net (some p) s l t formatted = refl

-- Whatever the kernel answers, a delivery that succeeds has sent the packet of the record once, over
-- the socket that the sink holds afterwards, and one that fails has sent nothing.
pub deliver-IsAtMostOnce :
    (net again : Net) (l : Level) (t : Timestamp) (formatted : Bytes) (s : SyslogSink)
    → IsAtMostOnce (sink_packet s l t formatted) (deliver net again l t formatted s)
unfolding deliver
deliver-IsAtMostOnce net again l t formatted s =
    subst
      (λ k.
        IsAtMostOnce k (deliver_connected net again l t formatted (connect_first net s.socket s)))
      (packet-connect_first net s.socket s l t formatted)
      (deliver_connected-IsAtMostOnce net again l t formatted (connect_first net s.socket s))
