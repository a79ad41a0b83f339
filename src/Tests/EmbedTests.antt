-- ===== src/Tests/EmbedTests.antt =====
-- The theorems on the embedder, with a service whose vectors have a wrong size.
use mnemonic.Prelude.{ℕ, false, [], ◌∷◌, some, ◌≡◌, refl}
use mnemonic.Store.Entry.{ok, err, external}
use mnemonic.Config.State.{pos}
use mnemonic.Embed.Client.{HttpEmbedder, Service, do_request, check_dimensions, embed_single}
use mnemonic.Embed.Preflight.{preflight_once}
use mnemonic.Tests.Sample.{sample}

abbrev service : Service ℕ
service = record { send = λ r. some (200, "{}"); decode = λ text. some ((1 ∷ 2 ∷ []) ∷ []) }

abbrev embedder : HttpEmbedder
embedder = record {
  embeddings = record {
    endpoint = "http://127.0.0.1:1234/v1/embeddings";
    model = "nomic";
    auth_token = "";
    skip_preflight = false;
  };
  dimensions = pos 3;
  once = false;
  preflight_passed = false;
}

preflight_once_example :
    let (result, after) = embed_single service embedder "errors" in
    (result ≡ err (external "embedding dimensions mismatch"))
    × (embed_single service after "tests" ≡ (ok (1 ∷ 2 ∷ []), after))
    × (after.preflight_passed ≡ false)
unfolding do_request check_dimensions
preflight_once_example =
    preflight_once service service embedder "errors" "tests"
      (external "embedding dimensions mismatch") refl refl refl refl
