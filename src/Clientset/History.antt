-- ===== src/Clientset/History.antt =====
-- pkg/client/clientset: sequences of calls of the typed client of clusters, beside a map from
-- namespaces and names to objects.
use talisman.Common.{
  String, ◌==◌, ◌≡◌, ◌≢◌, refl, sym, ◌∙◌, ap, ◌&&◌, true, Option, none, some, List, [], ◌∷◌, ◌++◌,
  if◌then◌else◌, eq_iff, arith,
}
use talisman.Go.Results.{Error, is_not_found}
use talisman.Clientset.Requests.{Rest, Kind, RestClient}
use talisman.Clientset.{clusters_client}
use talisman.Clientset.Server.{Key, Kept, Changed, IsServer}

abbrev pub cluster_key : String → String → Key
cluster_key ns name = record { namespace = some ns; resource = "clusters"; name = name }

abbrev text_of : Option String → String
text_of none = ""
text_of (some t) = t

cluster_key-inj : (s m ns n : String) → cluster_key s m ≡ cluster_key ns n → (ns ≡ s) × (n ≡ m)
cluster_key-inj s m ns n e = (sym (ap (λ k. text_of k.namespace) e), sym (ap (λ k. k.name) e))

-- A call of the client of a namespace.
pub data Call (R : Rest) (K : Kind) : Type 0 where
  create_call update_call : String → K.Object → Call R K
  delete_call : String → String → Option R.DeleteOptions → Call R K
  get_call : String → String → R.GetOptions → Call R K

-- What a call that has succeeded has stored: an object at a key, or that there is none.
abbrev pub Entry : Kind → Type 0
Entry K = (String × String) × Option K.Object

-- The last entry decides.
abbrev pub replay :
    {V : Type 0} → List ((String × String) × Option V) → String → String → Option V → Option V
replay [] ns name before = before
replay (((s, n), v) ∷ log) ns name before =
    replay log ns name (if s == ns && n == name then v else before)

-- What a read reports of what is stored.
pub record ReadsBack (K : Kind) (v : Option K.Object) (answer : K.Object × Option Error)
    : Type 0 where
  pub found : answer.1 ≡ none → v ≡ some answer.0
  pub missing : (e : Error) → answer.1 ≡ some e → is_not_found e ≡ true → v ≡ none

replay-append :
    {V : Type 0} (a b : List ((String × String) × Option V)) (ns name : String) (before : Option V)
    → replay (a ++ b) ns name before ≡ replay b ns name (replay a ns name before)
replay-append [] b ns name before = refl
replay-append (((s, n), v) ∷ a) b ns name before =
    replay-append a b ns name (if s == ns && n == name then v else before)

module _ (R : Rest) (K : Kind) (client : RestClient R K) where
  abbrev entry_of : String → String → Option K.Object → Option Error → List (Entry K)
  entry_of ns name v none = ((ns, name), v) ∷ []
  entry_of ns name v (some _) = []

  abbrev perform : Call R K → R.World → List (Entry K) × R.World
  perform (create_call ns o) w =
      let ((result, error), w') = (clusters_client R K client ns).create o w in
      (entry_of ns (K.name_of result) (some result) error, w')
  perform (update_call ns o) w =
      let ((result, error), w') = (clusters_client R K client ns).update o w in
      (entry_of ns (K.name_of o) (some result) error, w')
  perform (delete_call ns name options) w =
      let (error, w') = (clusters_client R K client ns).delete name options w in
      (entry_of ns name none error, w')
  perform (get_call ns name options) w =
      ([], ((clusters_client R K client ns).get name options w).1)

  abbrev pub run_history : List (Call R K) → R.World → List (Entry K) × R.World
  run_history [] w = ([], w)
  run_history (c ∷ cs) w =
      let (entries, w') = perform c w in let (log, w'') = run_history cs w' in (entries ++ log, w'')

  module _ (server : IsServer R K client) where
    open server use {stored, gets, posts, puts, deletes}

    entry-Replayed :
        (w w' : R.World) (ns n : String) (v : Option K.Object) (error : Option Error)
        → ((e : Error) → error ≡ some e → Kept R K stored w w')
        → (error ≡ none → Changed R K stored w w' (cluster_key ns n) v)
        → (s m : String)
        → stored w' (cluster_key s m)
          ≡ replay (entry_of ns n v error) s m (stored w (cluster_key s m))
    entry-Replayed w w' ns n v (some e) failed done s m = failed e refl (cluster_key s m)
    entry-Replayed w w' ns n v none failed done s m =
        let c = done refl in
        ground (
          arith,
          eq_iff ns s,
          eq_iff n m,
          c.here,
          c.elsewhere (cluster_key s m),
          cluster_key-inj s m ns n,
        )

    perform-Replayed :
        (c : Call R K) (w : R.World) (s m : String)
        → stored (perform c w).1 (cluster_key s m)
          ≡ replay (perform c w).0 s m (stored w (cluster_key s m))
    unfolding clusters_client
    perform-Replayed (create_call ns o) w s m =
        let a = posts _ _ w "clusters" o refl refl refl refl in
        entry-Replayed w _ ns _ _ _ a.failed a.created s m
    perform-Replayed (update_call ns o) w s m =
        let a = puts _ _ w "clusters" (K.name_of o) o refl refl refl refl refl in
        entry-Replayed w _ ns _ _ _ a.failed a.updated s m
    perform-Replayed (delete_call ns name options) w s m =
        let a = deletes _ w "clusters" name refl refl refl in
        entry-Replayed w _ ns name none _ a.failed a.deleted s m
    perform-Replayed (get_call ns name options) w s m =
        let a = gets _ _ w "clusters" name refl refl refl in a.kept (cluster_key s m)

    run_history-Replayed :
        (calls : List (Call R K)) (w : R.World) (s m : String)
        → stored (run_history calls w).1 (cluster_key s m)
          ≡ replay (run_history calls w).0 s m (stored w (cluster_key s m))
    run_history-Replayed [] w s m = refl
    run_history-Replayed (c ∷ cs) w s m =
        let (entries, w') = perform c w in
        let (log, w'') = run_history cs w' in
        run_history-Replayed cs w' s m
        ∙ ap (replay log s m) (perform-Replayed c w s m)
        ∙ sym (replay-append entries log s m (stored w (cluster_key s m)))

    entry-kept :
        (w w' : R.World) (ns n : String) (v : Option K.Object) (error : Option Error)
        → ((e : Error) → error ≡ some e → Kept R K stored w w')
        → (error ≡ none → Changed R K stored w w' (cluster_key ns n) v)
        → (k : Key) → k.resource ≢ "clusters"
        → stored w' k ≡ stored w k
    entry-kept w w' ns n v (some e) failed done k other = failed e refl k
    entry-kept w w' ns n v none failed done k other =
        (done refl).elsewhere k λ e. other (ap (λ k. k.resource) e)

    perform-kept :
        (c : Call R K) (w : R.World) (k : Key)
        → k.resource ≢ "clusters"
        → stored (perform c w).1 k ≡ stored w k
    unfolding clusters_client
    perform-kept (create_call ns o) w k other =
        let a = posts _ _ w "clusters" o refl refl refl refl in
        entry-kept w _ ns _ _ _ a.failed a.created k other
    perform-kept (update_call ns o) w k other =
        let a = puts _ _ w "clusters" (K.name_of o) o refl refl refl refl refl in
        entry-kept w _ ns _ _ _ a.failed a.updated k other
    perform-kept (delete_call ns name options) w k other =
        let a = deletes _ w "clusters" name refl refl refl in
        entry-kept w _ ns name none _ a.failed a.deleted k other
    perform-kept (get_call ns name options) w k other =
        let a = gets _ _ w "clusters" name refl refl refl in a.kept k

    run_history-kept :
        (calls : List (Call R K)) (w : R.World) (k : Key)
        → k.resource ≢ "clusters"
        → stored (run_history calls w).1 k ≡ stored w k
    run_history-kept [] w k other = refl
    run_history-kept (c ∷ cs) w k other =
        run_history-kept cs (perform c w).1 k other ∙ perform-kept c w k other

    -- After any history of calls of the typed clients of clusters, in any namespaces, a `get` reports what
    -- the calls that have succeeded have last stored under its namespace and name, an object or that
    -- there is none, and an object of another resource has not changed. The server keeps objects by
    -- namespace, resource and name, changes nothing where it returns an error, and deletes at once.
    pub get-ReadsBack :
        (calls : List (Call R K)) (w : R.World) (ns name : String) (options : R.GetOptions)
        (k : Key)
        → k.resource ≢ "clusters"
        → let (log, w') = run_history calls w in
          ReadsBack K
            (replay log ns name (stored w (cluster_key ns name)))
            ((clusters_client R K client ns).get name options w').0
          × (stored w' k ≡ stored w k)
    unfolding clusters_client
    get-ReadsBack calls w ns name options k other =
        let w' = (run_history calls w).1 in
        let a = gets _ _ w' "clusters" name refl refl refl in
        let replayed = run_history-Replayed calls w ns name in
        (
          record {
            found = λ fine. sym replayed ∙ a.found fine;
            missing = λ e failed is_missing. sym replayed ∙ a.missing e failed is_missing;
          },
          run_history-kept calls w k other,
        )
