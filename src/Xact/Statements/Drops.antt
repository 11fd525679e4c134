-- ===== src/Xact/Statements/Drops.antt =====
-- What the end of a transaction deletes in Elasticsearch.
use Prim.Native.String.{String}
use zombodb.Prelude.{List, [], ◌++◌, ◌∷◌, ◌≡◌}
use zombodb.Curl.{Curl}
use zombodb.Text.{Text, codes}
use zombodb.Xact.{XactState}
use zombodb.Xact.Statements.{DropObject, object_urls}

unfoldable pub deletes : List Text → List (Text × Text)
deletes [] = []
deletes (url ∷ urls) = (codes "DELETE", url) ∷ deletes urls

unfoldable pub all_urls : List DropObject → List Text
all_urls [] = []
all_urls (o ∷ objects) = object_urls o ++ all_urls objects

module _ (c : Curl) where
  -- The requests and the indices to delete are the same.
  record Kept (st st' : XactState c) : Type 0 where
    sent : st'.rest.sent ≡ st.rest.sent
    to_drop : st'.to_drop ≡ st.to_drop
