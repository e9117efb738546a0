-- ===== src/Envoy/Delivery.antt =====
-- What a discovery stream delivers: fresh versions of subscribed types, numbered in order.
use catalyst_router.Prelude.{
  ℕ, suc, zero, String, Bool, true, false, not, ◌+◌, ◌&&◌, ◌≡◌, refl, ◌∙◌, sym, ap, ap₂, List, [],
  ◌∷◌, ◌++◌, map, Option, none, some, arith, if◌then◌else◌, ◌==◌, string_key, length, inl, inr,
  Bool-cases, ==_eq, ==_comm, length-append, map-append,
}
use catalyst_router.Ports.{upto}
use catalyst_router.Envoy.Snapshot.{XdsSnapshot}
use catalyst_router.Envoy.Stream.{
  Stream, Sent, DiscoveryResponse, Resource, StreamEvent, snapshot_set, request, undecodable, ended,
  is_version, needs, send_type, send_latest, is_nack, count_nack, send_snapshot_for_types,
  send_subscribed, on_snapshot, on_request, on_end, on_event, serve, subscribe, is_initial,
  cluster_type_url, listener_type_url,
}

-- Each response of a type has another version than the one before it.
abbrev pub alternates : String → Option String → List DiscoveryResponse → Bool
alternates t last [] = true
alternates t last (r ∷ rs) =
    if r.type_url == t
    then not (is_version last r.version_info) && alternates t (some r.version_info) rs
    else alternates t last rs

abbrev last_version : String → Option String → List DiscoveryResponse → Option String
last_version t last [] = last
last_version t last (r ∷ rs) =
    last_version t (if r.type_url == t then some r.version_info else last) rs

alternates-append :
    (t : String) (last : Option String) (xs ys : List DiscoveryResponse)
    → alternates t last (xs ++ ys)
      ≡ alternates t last xs && alternates t (last_version t last xs) ys
alternates-append t last [] ys = refl
alternates-append t last (r ∷ rs) ys = elim (Bool-cases (r.type_url == t)) [
  | inl e ↦ ground (arith, alternates-append t (some r.version_info) rs ys)
  | inr e ↦ ground (arith, alternates-append t last rs ys)
]

last_version-append :
    (t : String) (last : Option String) (xs ys : List DiscoveryResponse)
    → last_version t last (xs ++ ys) ≡ last_version t (last_version t last xs) ys
last_version-append t last [] ys = refl
last_version-append t last (r ∷ rs) ys =
    last_version-append t (if r.type_url == t then some r.version_info else last) rs ys

-- What every send keeps: versions alternate, the noted version is the last one sent, and the nonces
-- go on from the stream's.
record IsFaithful (s : Stream) (sent : Sent) : Type 0 where
  fresh : (t : String) → alternates t (s.sent_versions t) sent.1 ≡ true
  noted : (t : String) → sent.0.sent_versions t ≡ last_version t (s.sent_versions t) sent.1
  numbered : map (λ r. r.nonce) sent.1 ≡ upto (length sent.1) (s.stream_nonce + 1)
  counted : sent.0.stream_nonce ≡ s.stream_nonce + length sent.1

silent-IsFaithful :
    (s next : Stream)
    → next.sent_versions ≡ s.sent_versions
    → next.stream_nonce ≡ s.stream_nonce
    → IsFaithful s (next, [])
unfolding upto
silent-IsFaithful s next v n = record {
  fresh = λ t. refl;
  noted = λ t. ap (λ f. f t) v;
  numbered = refl;
  counted = omega (arith, n);
}

send_type-IsFaithful :
    (type_url version : String) (resources : List Resource) (s : Stream)
    → IsFaithful s (send_type type_url version resources s)
unfolding send_type upto
send_type-IsFaithful type_url version resources s = elim (Bool-cases (needs s type_url version)) [
  | inr idle ↦ rw (idle, send_type) (silent-IsFaithful s s refl refl)
  | inl due ↦
      rw (due, send_type)
        (record {
          fresh = λ t. ground (arith, λ (e : type_url ≡ t). ap s.sent_versions e, ==_eq type_url t);
          noted = λ t. ground (arith, ==_comm type_url t);
          numbered = refl;
          counted = omega arith;
        })
]

upto-append : (m n start : ℕ) → upto (m + n) start ≡ upto m start ++ upto n (start + m)
unfolding upto
upto-append zero n start =
    let plus : 0 + n ≡ n = omega arith in
    let none_added : start ≡ start + 0 = omega arith in ap₂ upto plus none_added
upto-append (suc m) n start =
    let sum : suc m + n ≡ suc (m + n) = omega arith in
    let shifted : start + 1 + m ≡ start + suc m = omega arith in
    ap (λ k. upto k start) sum
    ∙ ap (◌∷◌ start)
        (upto-append m n (start + 1) ∙ ap (λ k. upto m (start + 1) ++ upto n k) shifted)

-- One send after another.
then-IsFaithful :
    (s : Stream) (a b : Sent) → IsFaithful s a → IsFaithful a.0 b → IsFaithful s (b.0, a.1 ++ b.1)
then-IsFaithful s a b f g = record {
  fresh = λ t.
      alternates-append t (s.sent_versions t) a.1 b.1
      ∙ ground (arith, f.fresh t, ap (λ v. alternates t v b.1) (f.noted t), g.fresh t);
  noted = λ t.
      g.noted t
      ∙ ap (λ v. last_version t v b.1) (f.noted t)
      ∙ sym (last_version-append t (s.sent_versions t) a.1 b.1);
  numbered =
      map-append (λ r. r.nonce) a.1 b.1
      ∙ ap₂ ◌++◌ f.numbered (g.numbered ∙ ap (upto (length b.1)) (omega (arith, f.counted)))
      ∙ sym (
          ap (λ n. upto n (s.stream_nonce + 1)) (length-append a.1 b.1)
          ∙ upto-append (length a.1) (length b.1) (s.stream_nonce + 1));
  counted = omega (arith, f.counted, g.counted, length-append a.1 b.1);
}

snapshot-IsFaithful :
    (snapshot : XdsSnapshot) (s : Stream) → IsFaithful s (send_snapshot_for_types snapshot s)
unfolding send_snapshot_for_types
snapshot-IsFaithful snapshot s =
    then-IsFaithful s _ _ (send_type-IsFaithful cluster_type_url snapshot.version _ s)
      (send_type-IsFaithful listener_type_url snapshot.version _ _)

gated-IsFaithful :
    (closed : Bool) (latest : Option XdsSnapshot) (s : Stream)
    → IsFaithful s (if closed then (s, []) else send_latest latest s)
gated-IsFaithful true latest s = silent-IsFaithful s s refl refl
gated-IsFaithful false none s = silent-IsFaithful s s refl refl
gated-IsFaithful false (some snapshot) s = snapshot-IsFaithful snapshot s

subscribed-IsFaithful : (s : Stream) → IsFaithful s (send_subscribed s)
unfolding send_subscribed
subscribed-IsFaithful s = gated-IsFaithful s.stream_closed s.latest_snapshot s

-- A change of the other variables before a send.
after-IsFaithful :
    (s known : Stream) (sent : Sent)
    → known.sent_versions ≡ s.sent_versions
    → known.stream_nonce ≡ s.stream_nonce
    → IsFaithful known sent
    → IsFaithful s sent
after-IsFaithful s known sent v n f =
    then-IsFaithful s (known, []) sent (silent-IsFaithful s known v n) f

pub subscribe-sent_versions :
    (t : String) (s : Stream) → (subscribe t s).sent_versions ≡ s.sent_versions
subscribe-sent_versions t s = elim (Bool-cases (t == "")) [
  | inl e ↦ simp e refl
  | inr e ↦ simp e refl
]

subscribe-stream_nonce : (t : String) (s : Stream) → (subscribe t s).stream_nonce ≡ s.stream_nonce
subscribe-stream_nonce t s = elim (Bool-cases (t == "")) [
  | inl e ↦ simp e refl
  | inr e ↦ simp e refl
]

counted-IsFaithful :
    (nacked : Bool) (known : Stream)
    → IsFaithful known ((if nacked then count_nack known else known), [])
counted-IsFaithful true known = silent-IsFaithful known (count_nack known) refl refl
counted-IsFaithful false known = silent-IsFaithful known known refl refl

answer-IsFaithful :
    (initial nacked : Bool) (known : Stream)
    → IsFaithful known (
        if initial
        then send_subscribed known
        else ((if nacked then count_nack known else known), []))
answer-IsFaithful true nacked known = subscribed-IsFaithful known
answer-IsFaithful false nacked known = counted-IsFaithful nacked known

on_event-IsFaithful : (e : StreamEvent) (s : Stream) → IsFaithful s (on_event e s)
unfolding on_event on_snapshot on_request on_end
on_event-IsFaithful (snapshot_set snapshot) s =
    after-IsFaithful s (record s { latest_snapshot = some snapshot }) _ refl refl
      (subscribed-IsFaithful (record s { latest_snapshot = some snapshot }))
on_event-IsFaithful (request r) s =
    after-IsFaithful s (subscribe r.type_url s) _ (subscribe-sent_versions r.type_url s)
      (subscribe-stream_nonce r.type_url s)
      (answer-IsFaithful (is_initial r) (is_nack r.error_code) (subscribe r.type_url s))
on_event-IsFaithful undecodable s = silent-IsFaithful s s refl refl
on_event-IsFaithful ended s = silent-IsFaithful s (on_end s) refl refl

serve-IsFaithful : (es : List StreamEvent) (s : Stream) → IsFaithful s (serve es s)
unfolding serve
serve-IsFaithful [] s = silent-IsFaithful s s refl refl
serve-IsFaithful (e ∷ es) s =
    then-IsFaithful s (on_event e s) (serve es (on_event e s).0) (on_event-IsFaithful e s)
      (serve-IsFaithful es (on_event e s).0)

-- Whatever happens on a stream, no type is sent the same version twice in a row, and the versions
-- noted before and after are those of the responses.
pub serve-alternates :
    (es : List StreamEvent) (s : Stream) (t : String)
    → alternates t (s.sent_versions t) (serve es s).1 ≡ true
serve-alternates es s t = (serve-IsFaithful es s).fresh t

-- Whatever happens on a stream, its responses are numbered one after another from the nonce after
-- the stream's last.
pub serve-nonces :
    (es : List StreamEvent) (s : Stream)
    → map (λ r. r.nonce) (serve es s).1 ≡ upto (length (serve es s).1) (s.stream_nonce + 1)
serve-nonces es s = (serve-IsFaithful es s).numbered
