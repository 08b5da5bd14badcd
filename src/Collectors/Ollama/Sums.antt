-- ===== src/Collectors/Ollama/Sums.antt =====
-- The totals of `PollOnce` as sums over the models.
use capacity_agent.Base.{
  ◌≡◌, refl, ◌∙◌, Bool, true, false, Option, none, some, List, [], ◌∷◌, codes, if◌then◌else◌,
}
use capacity_agent.Base.Int.{ℤ, pos, ◌+ℤ◌, +ℤ_assoc, +ℤ_zero, zero_+ℤ}
use capacity_agent.Collectors.Ollama.{OllamaJson, Totals, vram_of, ram_of, add_models, totals_of}

-- The sum of a size over a list.
unfoldable pub sum_by : {A : Type 0} → (A → ℤ) → List A → ℤ
sum_by size [] = pos 0
sum_by size (x ∷ xs) = size x +ℤ sum_by size xs

module _ (json : OllamaJson) where
  -- What a model has outside the memory of the GPU.
  abbrev pub spare_of : json.Node → ℤ
  spare_of model = ram_of json (json.get_object_item model (codes "size")) (vram_of json model)

  -- The models of an answer: none without an array of them.
  abbrev pub models_of : Option json.Node → List json.Node
  models_of none = []
  models_of (some models) = if json.is_array models then json.children models else []

  abbrev pub count_of : Option json.Node → ℤ
  count_of none = pos 0
  count_of (some models) = if json.is_array models then pos (json.get_array_size models) else pos 0

  abbrev totals : ℤ → ℤ → ℤ → Totals
  totals models vram ram = record { models = models; vram = vram; ram = ram }

  add_models-sum_by :
      (models : List json.Node) (t : Totals)
      → add_models json models t
        ≡ totals t.models (t.vram +ℤ sum_by (vram_of json) models) (t.ram +ℤ sum_by spare_of models)
  unfolding add_models sum_by
  add_models-sum_by [] t = rw (+ℤ_zero t.vram, +ℤ_zero t.ram) refl
  add_models-sum_by (model ∷ models) t =
      add_models-sum_by models _
      ∙ rw
          (
            +ℤ_assoc t.vram (vram_of json model) (sum_by (vram_of json) models),
            +ℤ_assoc t.ram (spare_of model) (sum_by spare_of models),
          )
          refl

  array-sums :
      (models : json.Node) (is_array : Bool)
      → (if is_array
          then add_models json
              (json.children models)
              (totals (pos (json.get_array_size models)) (pos 0) (pos 0))
          else totals (pos 0) (pos 0) (pos 0))
        ≡ totals
            (if is_array then pos (json.get_array_size models) else pos 0)
            (sum_by (vram_of json) (if is_array then json.children models else []))
            (sum_by spare_of (if is_array then json.children models else []))
  unfolding sum_by
  array-sums models true =
      add_models-sum_by (json.children models) _
      ∙ rw
          (
            zero_+ℤ (sum_by (vram_of json) (json.children models)),
            zero_+ℤ (sum_by spare_of (json.children models)),
          )
          refl
  array-sums models false = refl

  pub totals_of-sums :
      (o : Option json.Node)
      → totals_of json o
        ≡ totals (count_of o) (sum_by (vram_of json) (models_of o)) (sum_by spare_of (models_of o))
  unfolding totals_of sum_by
  totals_of-sums none = refl
  totals_of-sums (some models) = array-sums models (json.is_array models)
