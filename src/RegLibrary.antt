-- ===== src/RegLibrary.antt =====
-- qwen/citations.py: the passages that positions and rulings cite, by id, and the resolver of a
-- society. Retrieval by cosine similarity computes with floats.
use tarmac.Prelude.{String, Option, none, some, List, map, findb, if◌then◌else◌}
use tarmac.Prelude.Text.{◌==◌, codes}
use tarmac.Canonical.{sha256_hex}
use tarmac.ChainLog.{utf8}
use tarmac.Schemas.{all_distinct}
use tarmac.Storage.{Result, ok, err, value_error}

pub record Passage : Type 0 where
  pub id : String
  pub title : String
  pub text : String

-- Passage.sha256, of the text's UTF-8 bytes.
unfoldable pub passage_sha256 : Passage → String
passage_sha256 p = sha256_hex (utf8 (codes p.text))

-- RegLibrary(passages): a ValueError for two passages of one id.
unfoldable pub new_library : List Passage → Result (List Passage)
new_library ps = if all_distinct (map (λ p. p.id) ps) then ok ps else err value_error

-- RegLibrary.get
unfoldable pub get_passage : String → List Passage → Option Passage
get_passage id ps = findb (λ p. p.id == id) ps

-- The "sha256" of what RegLibrary.resolver returns for an id, if it knows the id.
unfoldable pub resolver : List Passage → String → Option String
resolver ps id = elim (get_passage id ps) [ none ↦ none | some p ↦ some (passage_sha256 p) ]
