-- ===== src/Tests/Typed.antt =====
-- The typed client of clusters at a small server.
use talisman.Common.{
  String, ◌==◌, ◌≡◌, refl, Bool, ◌&&◌, true, false, Option, none, some, List, [], if◌then◌else◌,
  eq_iff, eq_refl, arith,
}
use talisman.Go.Results.{Error, api, is_missing, is_present, other_reason, raise}
use talisman.Clientset.Requests.{
  Rest, Kind, Verb, RestClient, get_verb, post, put, delete_verb, namespace_in, resource_in,
  name_in, object_in,
}
use talisman.Clientset.Server.{Key, Changed, Reads, Creates, Updates, Deletes}

-- An object is its name and its specification.
abbrev pub objects : Kind
objects = record {
  Object = String × String;
  Objects = List (String × String);
  zero_object = ("", "");
  zero_objects = [];
  name_of = λ o. o.0;
}

abbrev KeptObjects : Type 0
KeptObjects = Key → Option (String × String)

abbrev pub rest : Rest
rest = record {
  World = KeptObjects;
  GetOptions = Unit;
  ListOptions = Unit;
  DeleteOptions = Unit;
  PatchType = String;
  Watcher = Unit;
  watching = λ o. o;
}

abbrev same_namespace : Option String → Option String → Bool
same_namespace none none = true
same_namespace (some a) (some b) = a == b
same_namespace _ _ = false

abbrev same_key : Key → Key → Bool
same_key a b =
    same_namespace a.namespace b.namespace && a.resource == b.resource && a.name == b.name

abbrev set_at : Key → Option (String × String) → KeptObjects → KeptObjects
set_at key v w k = if same_key k key then v else w k

abbrev Answer : Type 0
Answer = ((String × String) × Option Error) × KeptObjects

abbrev not_found : Error
not_found = api is_missing "not found"

abbrev answer_get : Option (String × String) → KeptObjects → Answer
answer_get (some o) w = ((o, none), w)
answer_get none w = ((("", ""), some not_found), w)

abbrev answer_post : Key → String × String → Option (String × String) → KeptObjects → Answer
answer_post key o (some _) w = ((("", ""), some (api is_present "already exists")), w)
answer_post key o none w = ((o, none), set_at key (some o) w)

abbrev answer_put : Key → String × String → Option (String × String) → KeptObjects → Answer
answer_put key o (some _) w = ((o, none), set_at key (some o) w)
answer_put key o none w = ((("", ""), some not_found), w)

abbrev answer_delete : Key → Option (String × String) → KeptObjects → Option Error × KeptObjects
answer_delete key (some _) w = (none, set_at key none w)
answer_delete key none w = (some not_found, w)

abbrev pub key_of : Option String → String → String → Key
key_of ns r n = record { namespace = ns; resource = r; name = n }

abbrev bad_request : KeptObjects → Answer
bad_request w = ((("", ""), some (api other_reason "bad request")), w)

abbrev into :
    Verb rest objects
    → Option String
    → Option String
    → Option String
    → Option (String × String)
    → KeptObjects
    → Answer
into get_verb ns (some r) (some n) o w = answer_get (w (key_of ns r n)) w
into post ns (some r) none (some o) w = answer_post (key_of ns r o.0) o (w (key_of ns r o.0)) w
into put ns (some r) (some n) (some o) w = answer_put (key_of ns r n) o (w (key_of ns r n)) w
into _ ns r n o w = bad_request w

abbrev delete_at :
    Verb rest objects
    → Option String
    → Option String
    → Option String
    → KeptObjects
    → Option Error × KeptObjects
delete_at delete_verb ns (some r) (some n) w = answer_delete (key_of ns r n) (w (key_of ns r n)) w
delete_at _ ns r n w = (some (api other_reason "bad request"), w)

abbrev pub client : RestClient rest objects
client = record {
  into = λ z q w.
      into q.verb (namespace_in q.parts) (resource_in q.parts) (name_in q.parts) (object_in q.parts)
        w;
  into_list = λ z q w. ((z, none), w);
  error_of =
      λ q w. delete_at q.verb (namespace_in q.parts) (resource_in q.parts) (name_in q.parts) w;
  watch = λ q. raise (api other_reason "no watch");
}

same_namespace-eq : (a b : Option String) → same_namespace a b ≡ true → a ≡ b
same_namespace-eq none none e = refl
same_namespace-eq (some a) (some b) e = ground (arith, eq_iff a b)
same_namespace-eq none (some b) e = ground arith
same_namespace-eq (some a) none e = ground arith

made : (a b : Key) → a.namespace ≡ b.namespace → a.resource ≡ b.resource → a.name ≡ b.name → a ≡ b
made a b e f g = λ i. record { namespace = e i; resource = f i; name = g i }

same_key-eq : (a b : Key) → same_key a b ≡ true → a ≡ b
same_key-eq a b e =
    made a b (same_namespace-eq a.namespace b.namespace (ground arith))
      (ground (arith, eq_iff a.resource b.resource)) (ground (arith, eq_iff a.name b.name))

same_namespace_refl : (a : Option String) → same_namespace a a ≡ true
same_namespace_refl none = refl
same_namespace_refl (some a) = eq_refl a

same_key_refl : (a : Key) → same_key a a ≡ true
same_key_refl a =
    ground (arith, same_namespace_refl a.namespace, eq_refl a.resource, eq_refl a.name)

set_at-Changed :
    (w : KeptObjects) (key : Key) (v : Option (String × String))
    → Changed rest objects (λ w. w) w (set_at key v w) key v
set_at-Changed w key v = record {
  here = rw (same_key_refl key) refl;
  elsewhere = λ k different. ground (arith, same_key-eq k key);
}

pub answer_get-Reads :
    (ns : Option String) (r n : String) (w : KeptObjects) (v : Option (String × String))
    → w (key_of ns r n) ≡ v
    → Reads rest objects (λ w. w) w (key_of ns r n) (answer_get v w)
answer_get-Reads ns r n w (some o) e = record {
  kept = λ k. refl;
  found = λ _. e;
  missing = λ x no. ground arith;
}
answer_get-Reads ns r n w none e = record {
  kept = λ k. refl;
  found = λ no. ground arith;
  missing = λ x _ _. e;
}

pub answer_post-Creates :
    (ns : Option String) (r : String) (o : String × String) (w : KeptObjects)
    (v : Option (String × String))
    → w (key_of ns r o.0) ≡ v
    → Creates rest objects (λ w. w) w ns r (answer_post (key_of ns r o.0) o v w)
answer_post-Creates ns r o w (some x) e = record {
  failed = λ y _ k. refl;
  was_absent = λ no. ground arith;
  created = λ no. ground arith;
}
answer_post-Creates ns r o w none e = record {
  failed = λ y no. ground arith;
  was_absent = λ _. e;
  created = λ _. set_at-Changed w (key_of ns r o.0) (some o);
}

pub answer_put-Updates :
    (key : Key) (o : String × String) (w : KeptObjects) (v : Option (String × String))
    → w key ≡ v
    → Updates rest objects (λ w. w) w key (answer_put key o v w)
answer_put-Updates key o w (some x) e = record {
  failed = λ y no. ground arith;
  was_present = λ _ absent. ground arith;
  updated = λ _. set_at-Changed w key (some o);
}
answer_put-Updates key o w none e = record {
  failed = λ y _ k. refl;
  was_present = λ no. ground arith;
  updated = λ no. ground arith;
}

pub answer_delete-Deletes :
    (key : Key) (w : KeptObjects) (v : Option (String × String))
    → Deletes rest objects (λ w. w) w key (answer_delete key v w)
answer_delete-Deletes key w (some x) = record {
  failed = λ y no. ground arith;
  deleted = λ _. set_at-Changed w key none;
}
answer_delete-Deletes key w none = record { failed = λ y _ k. refl; deleted = λ no. ground arith }
