-- ===== src/Publisher/Message.antt =====
-- The message that `getPublishMessage` hands on.
use gorabbit.Prelude.{
  Bytes, true, false, Option, none, some, [], ◌∷◌, ◌≡◌, ◌≤◌, refl, sym, ◌∙◌, arith, is_empty,
  length, lookup, insert, bytes_eq_iff, lookup-insert, subst, IsUnique,
}
use gorabbit.Errors.{Result, ok, err, ◌>>=◌, nil_message, empty_type_name}
use gorabbit.Message.{Message}
use gorabbit.Routing.{max_routing_key_bytes, publish_routing_key, check_routing_key_length}
use gorabbit.Routing.Keys.{check_routing_key_length_lem}
use gorabbit.Amqp.{Table, HeaderValue}
use gorabbit.Publisher.Defs.{PublishMessage, get_publish_message, copy_headers, named}

or_else {ℓ} : {A : Type ℓ} → Option A → Option A → Option A
or_else none d = d
or_else (some a) d = some a

-- Copied headers hide what was there.
lookup-copy_headers :
    (k : Bytes) (dst src : Table)
    → IsUnique src
    → lookup k (copy_headers dst src) ≡ or_else (lookup k src) (lookup k dst)
unfolding copy_headers or_else lookup
lookup-copy_headers k dst [] u = refl
lookup-copy_headers k dst ((j, v) ∷ src) u =
    lookup-copy_headers k (insert j v dst) src u.1
    ∙ ground (arith, lookup-insert j k v dst, bytes_eq_iff j k)

-- A chain that answers got through its first step.
first_step {ℓ κ} :
    {T : Type ℓ} {U : Type κ} {u : U} (step : Result T) (k : T → Result U)
    → (step >>= k) ≡ ok u
    → (value : T) × (step ≡ ok value) × (k value ≡ ok u)
first_step (err fault) k done = cc
first_step (ok value) k done = (value, refl, done)

-- What a publish message is made of.
pub record IsMadeOf (marshal : Message → Result Bytes) (ambient : Table) (new_id : Bytes)
    (m : Message) (pm : PublishMessage) : Type 0 where
  pub name : pm.msg_type_name ≡ m.type_name
  pub has_name : is_empty m.type_name ≡ false
  pub key : publish_routing_key m m.type_name ≡ ok pm.routing_key
  pub key_fits : length pm.routing_key ≤ max_routing_key_bytes
  pub body : marshal m ≡ ok pm.msg_body
  pub id : pm.msg_id ≡ new_id
  pub headers :
      (t : Table) × (pm.msg_headers ≡ some t) × ((k : Bytes) → lookup k t ≡ lookup k ambient)

named_lem :
    (m : Message) {t : Bytes} → named m ≡ ok t → (is_empty m.type_name ≡ false) × (m.type_name ≡ t)
named_lem m h = ground arith

or_else-none : (o : Option HeaderValue) → or_else o none ≡ o
unfolding or_else
or_else-none none = refl
or_else-none (some v) = refl

ok-cancel : {a b : PublishMessage} → ok a ≡ ok b → a ≡ b
ok-cancel e = cc

pieces :
    (marshal : Message → Result Bytes) (ambient : Table) (new_id : Bytes) (m : Message)
    (t key body : Bytes)
    → IsUnique ambient
    → named m ≡ ok t
    → publish_routing_key m t ≡ ok key
    → check_routing_key_length key ≡ ok tt
    → marshal m ≡ ok body
    → IsMadeOf marshal ambient new_id m (record {
      msg_id = new_id;
      msg_type_name = t;
      routing_key = key;
      msg_body = body;
      msg_headers = some (copy_headers [] ambient);
    })
unfolding lookup
pieces marshal ambient new_id m t key body u ht hk hl hb =
    let (has_name, same) = named_lem m ht in
    record {
      name = sym same;
      has_name = has_name;
      key = subst (λ n. publish_routing_key m n ≡ ok key) (sym same) hk;
      key_fits = (check_routing_key_length_lem key []).0.0 hl;
      body = hb;
      id = refl;
      headers = (
        copy_headers [] ambient,
        refl,
        λ k. lookup-copy_headers k [] ambient u ∙ or_else-none (lookup k ambient),
      );
    }

made_of :
    (marshal : Message → Result Bytes) (ambient : Table) (new_id : Bytes) (m : Message)
    {pm : PublishMessage}
    → IsUnique ambient
    → get_publish_message marshal ambient new_id (some m) ≡ ok pm
    → IsMadeOf marshal ambient new_id m pm
unfolding get_publish_message
made_of marshal ambient new_id m {pm} u h =
    let (t, ht, h1) = first_step (named m) _ h in
    let (key, hk, h2) = first_step (publish_routing_key m t) _ h1 in
    let (w, hl, h3) = first_step (check_routing_key_length key) _ h2 in
    let (body, hb, h4) = first_step (marshal m) _ h3 in
    subst (IsMadeOf marshal ambient new_id m) (ok-cancel h4)
      (pieces marshal ambient new_id m t key body u ht hk hl hb)

-- Whatever is published has a type name, the routing key of the message, of at most 255 bytes, the
-- marshalled message, the fresh id and exactly the headers that the carrier took from the context
-- (with one value for a key); a nil message and a type without a name are refused.
pub get_publish_message_lem :
    (marshal : Message → Result Bytes) (ambient : Table) (new_id : Bytes) (m : Message)
    (pm : PublishMessage)
    → IsUnique ambient
    → (get_publish_message marshal ambient new_id (some m) ≡ ok pm
        → IsMadeOf marshal ambient new_id m pm)
      × (get_publish_message marshal ambient new_id none ≡ err nil_message)
      × (is_empty m.type_name ≡ true
          → get_publish_message marshal ambient new_id (some m) ≡ err empty_type_name)
unfolding get_publish_message
get_publish_message_lem marshal ambient new_id m pm u =
    (made_of marshal ambient new_id m u, refl, λ e. rw e)
