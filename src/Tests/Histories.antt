-- ===== src/Tests/Histories.antt =====
-- Calls of the typed client of clusters, one after the other.
use talisman.Common.{◌≡◌, refl, none, List, [], ◌∷◌, eq_iff, arith}
use talisman.Clientset.Requests.{namespace_in}
use talisman.Clientset.{clusters_client}
use talisman.Clientset.Server.{Key, IsServer}
use talisman.Clientset.History.{
  Call, create_call, update_call, delete_call, get_call, replay, run_history, ReadsBack,
  get-ReadsBack,
}
use talisman.Tests.Typed.{
  objects, rest, key_of, client, answer_get-Reads, answer_post-Creates, answer_put-Updates,
  answer_delete-Deletes,
}

abbrev server : IsServer rest objects client
server = record {
  stored = λ w. w;
  gets = λ z q w r n is_get at_resource at_name.
      rw is_get
        (rw at_resource (rw at_name (answer_get-Reads (namespace_in q.parts) r n w _ refl)));
  posts = λ z q w r o is_post at_resource no_name has_object. rw is_post (
      rw at_resource
        (rw no_name (rw has_object (answer_post-Creates (namespace_in q.parts) r o w _ refl))));
  puts = λ z q w r n o is_put at_resource at_name has_object same_name. rw is_put (
      rw at_resource (
        rw at_name
          (rw has_object (answer_put-Updates (key_of (namespace_in q.parts) r n) o w _ refl))));
  deletes = λ q w r n is_delete at_resource at_name.
      rw is_delete (
        rw at_resource
          (rw at_name (answer_delete-Deletes (key_of (namespace_in q.parts) r n) w _)));
}

-- Two namespaces have a cluster of the same name; one is updated, the other deleted.
abbrev calls : List (Call rest objects)
calls =
    create_call "prod" ("px", "v1")
    ∷ create_call "test" ("px", "v1")
    ∷ update_call "prod" ("px", "v2")
    ∷ get_call "test" "px" tt
    ∷ delete_call "test" "px" none
    ∷ delete_call "test" "px" none
    ∷ []

abbrev a_strategy : Key
a_strategy = record { namespace = none; resource = "volumeplacementstrategies"; name = "px" }

get-ReadsBack_example :
    let (log, w') = run_history rest objects client calls (λ k. none) in
    ReadsBack objects
      (replay log "prod" "px" none)
      ((clusters_client rest objects client "prod").get "px" tt w').0
    × (w' a_strategy ≡ none)
get-ReadsBack_example =
    get-ReadsBack rest objects client server calls (λ k. none) "prod" "px" tt a_strategy
      λ e. ground (arith, eq_iff "volumeplacementstrategies" "clusters")

read_back :
    ((clusters_client rest objects client "prod").get "px" tt
      (run_history rest objects client calls (λ k. none)).1).0
    ≡ (("px", "v2"), none)
unfolding clusters_client
read_back = refl
