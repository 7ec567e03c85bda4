-- ===== src/Clientset/Server.antt =====
-- What the typed clients rely on of the API server: objects are kept by namespace, resource and name.
use talisman.Common.{String, ◌≡◌, ◌≢◌, Option, none, some, true}
use talisman.Go.Results.{Error, is_not_found}
use talisman.Clientset.Requests.{
  Rest, Kind, Request, RestClient, get_verb, post, put, delete_verb, namespace_in, resource_in,
  name_in, object_in,
}

pub record Key : Type 0 where
  pub namespace : Option String
  pub resource : String
  pub name : String

module _ (R : Rest) (K : Kind) where
  abbrev pub Stored : Type 0
  Stored = R.World → Key → Option K.Object

  -- Nothing is changed.
  abbrev pub Kept : Stored → R.World → R.World → Type 0
  Kept stored w w' = (k : Key) → stored w' k ≡ stored w k

  -- What is stored at a key is changed, and nothing else.
  pub record Changed (stored : Stored) (w w' : R.World) (key : Key) (v : Option K.Object)
      : Type 0 where
    pub here : stored w' key ≡ v
    pub elsewhere : (k : Key) → k ≢ key → stored w' k ≡ stored w k

  -- A read changes nothing; it returns what is stored, or reports that nothing is, or fails otherwise.
  pub record Reads (stored : Stored) (w : R.World) (key : Key)
      (answer : (K.Object × Option Error) × R.World) : Type 0 where
    pub kept : Kept stored w answer.1
    pub found : answer.0.1 ≡ none → stored w key ≡ some answer.0.0
    pub missing : (e : Error) → answer.0.1 ≡ some e → is_not_found e ≡ true → stored w key ≡ none

  -- A write that returns an error has changed nothing. A success returns what is stored then.
  pub record Creates (stored : Stored) (w : R.World) (ns : Option String) (resource : String)
      (answer : (K.Object × Option Error) × R.World) : Type 0 where
    pub failed : (e : Error) → answer.0.1 ≡ some e → Kept stored w answer.1
    pub was_absent :
        answer.0.1 ≡ none
        → stored w (record { namespace = ns; resource = resource; name = K.name_of answer.0.0 })
          ≡ none
    pub created :
        answer.0.1 ≡ none
        → Changed stored w answer.1
            (record { namespace = ns; resource = resource; name = K.name_of answer.0.0 })
            (some answer.0.0)

  pub record Updates (stored : Stored) (w : R.World) (key : Key)
      (answer : (K.Object × Option Error) × R.World) : Type 0 where
    pub failed : (e : Error) → answer.0.1 ≡ some e → Kept stored w answer.1
    pub was_present : answer.0.1 ≡ none → stored w key ≢ none
    pub updated : answer.0.1 ≡ none → Changed stored w answer.1 key (some answer.0.0)

  pub record Deletes (stored : Stored) (w : R.World) (key : Key) (answer : Option Error × R.World)
      : Type 0 where
    pub failed : (e : Error) → answer.0 ≡ some e → Kept stored w answer.1
    pub deleted : answer.0 ≡ none → Changed stored w answer.1 key none

  -- A server without finalizers.
  pub record IsServer (client : RestClient R K) : Type 0 where
    pub stored : Stored
    pub gets :
        (z : K.Object) (q : Request R K) (w : R.World) (r n : String)
        → q.verb ≡ get_verb
        → resource_in q.parts ≡ some r
        → name_in q.parts ≡ some n
        → Reads stored w
            (record { namespace = namespace_in q.parts; resource = r; name = n })
            (client.into z q w)
    pub posts :
        (z : K.Object) (q : Request R K) (w : R.World) (r : String) (o : K.Object)
        → q.verb ≡ post
        → resource_in q.parts ≡ some r
        → name_in q.parts ≡ none
        → object_in q.parts ≡ some o
        → Creates stored w (namespace_in q.parts) r (client.into z q w)
    pub puts :
        (z : K.Object) (q : Request R K) (w : R.World) (r n : String) (o : K.Object)
        → q.verb ≡ put
        → resource_in q.parts ≡ some r
        → name_in q.parts ≡ some n
        → object_in q.parts ≡ some o
        → K.name_of o ≡ n
        → Updates stored w
            (record { namespace = namespace_in q.parts; resource = r; name = n })
            (client.into z q w)
    pub deletes :
        (q : Request R K) (w : R.World) (r n : String)
        → q.verb ≡ delete_verb
        → resource_in q.parts ≡ some r
        → name_in q.parts ≡ some n
        → Deletes stored w
            (record { namespace = namespace_in q.parts; resource = r; name = n })
            (client.error_of q w)
