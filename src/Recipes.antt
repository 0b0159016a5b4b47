-- ===== src/Recipes.antt =====
-- The queries of knowledge/queries.py: the members of a tag, and the ways to acquire a target. A
-- quantity is a float that is not negative, in units of 2 ^ -1074. none stands for a KeyError, and
-- for the model out of fuel: a node of the tags is left once for each edge into a visited tag.
pub mod Tags
pub mod Groups
pub mod Choices
pub mod Methods
pub mod Examples
use minecraft_ai.Prelude.{
  ℕ, zero, suc, ◌+◌, ◌^◌, Bool, true, false, List, [], ◌∷◌, ◌++◌, Option, none, some, ◌&&◌, ◌||◌,
  ltb, if◌then◌else◌, length, Str, contains, update, Dict, lookup, insert, sort_by,
}
use minecraft_ai.Knowledge.{NodeKind, tag, EdgeKind, member_of, KnowledgeNode, KnowledgeEdge}
use minecraft_ai.Knowledge.Index.{Index}
use minecraft_ai.Knowledge.Graph.{KnowledgeGraph, has_node, incoming, requirements, ways_to_obtain}

pub record RequirementChoice : Type 0 where
  pub alternatives : List Str
  pub quantity : ℕ
  pub source_edge_ids : List Str

pub record AcquisitionMethod : Type 0 where
  pub target : Str
  pub process : Str
  pub output_quantity : ℕ
  pub output_kind : EdgeKind
  pub requirements : List RequirementChoice
  pub provenance_source : Str

unfoldable pub is_tag : NodeKind → Bool
is_tag tag = true
is_tag _ = false

unfoldable pub is_member_of : EdgeKind → Bool
is_member_of member_of = true
is_member_of _ = false

-- `sorted(items)`
unfoldable pub sorted_texts : List Str → List Str
unfolding sort_by
sorted_texts = sort_by (λ s. s)

-- `items.add(x)`
unfoldable pub add_text : Str → List Str → List Str
unfolding contains
add_text x xs = if contains xs x then xs else x ∷ xs

-- the tags to visit, the last one first, with their depths
abbrev pub Stack : Type 0
Stack = List (Str × ℕ)

-- the ids in an index at the nodes that are not visited
abbrev pub unvisited : List Str → Index → ℕ
unvisited visited [] = 0
unvisited visited ((n, ids) ∷ index) =
    (if contains visited n then 0 else length ids) + unvisited visited index

module _ (g : KnowledgeGraph) where
  module _ (recursive : Bool) (max_depth : ℕ) where
    -- the members of one tag
    unfoldable pub tag_edges :
        (depth : ℕ) → List KnowledgeEdge → List Str → Stack → Option (List Str × Stack)
    unfolding lookup is_tag add_text
    tag_edges depth [] leaves stack = some (leaves, stack)
    tag_edges depth (e ∷ es) leaves stack = elim (lookup e.source g.nodes) [
      | none ↦ none
      | some child ↦ elim (recursive && is_tag child.kind) [
        | true ↦ tag_edges depth es leaves ((child.node_id, suc depth) ∷ stack)
        | false ↦ tag_edges depth es (add_text child.node_id leaves) stack
      ]
    ]

    unfoldable pub search_tags :
        (fuel : ℕ) → Stack → (visited leaves : List Str) → Option (List Str)
    unfolding tag_edges contains incoming is_member_of sorted_texts
    search_tags zero stack visited leaves = none
    search_tags (suc fuel) [] visited leaves = some (sorted_texts leaves)
    search_tags (suc fuel) ((current, depth) ∷ stack) visited leaves =
        elim (contains visited current || ltb max_depth depth) [
          | true ↦ search_tags fuel stack visited leaves
          | false ↦ elim (incoming g current is_member_of) [
            | none ↦ none
            | some es ↦ elim (tag_edges depth es leaves stack) [
              | none ↦ none
              | some after ↦ search_tags fuel after.1 (current ∷ visited) after.0
            ]
          ]
        ]

    unfoldable pub tag_members : Str → Option (List Str)
    unfolding lookup is_tag search_tags
    tag_members tag_node_id = elim (lookup tag_node_id g.nodes) [
      | none ↦ none
      | some node ↦ elim (is_tag node.kind) [
        | false ↦ some (tag_node_id ∷ [])
        | true ↦ search_tags (2 + unvisited [] g.in_ids) ((tag_node_id, 0) ∷ []) [] []
      ]
    ]

-- `edge.alternative_group or edge.edge_id`
unfoldable pub group_key : KnowledgeEdge → Str
group_key e = elim e.alternative_group [
  | none ↦ e.edge_id
  | some [] ↦ e.edge_id
  | some (c ∷ cs) ↦ c ∷ cs
]

-- `groups[key]`, of a defaultdict
unfoldable pub group_at : Dict (List KnowledgeEdge) → Str → List KnowledgeEdge
unfolding lookup
group_at groups k = elim (lookup k groups) [ none ↦ [] | some es ↦ es ]

-- `if key not in groups: order.append(key)`
unfoldable pub order_with : Option (List KnowledgeEdge) → Str → List Str → List Str
order_with none k order = order ++ k ∷ []
order_with (some _) k order = order

-- the groups and the order of their keys
unfoldable pub group_edges :
    List KnowledgeEdge → Dict (List KnowledgeEdge) → List Str → Dict (List KnowledgeEdge) × List Str
unfolding group_key group_at insert lookup order_with
group_edges [] groups order = (groups, order)
group_edges (e ∷ es) groups order =
    let k = group_key e in
    group_edges es (insert k (group_at groups k ++ e ∷ []) groups)
      (order_with (lookup k groups) k order)

unfoldable pub groups_of : Dict (List KnowledgeEdge) → List Str → List (List KnowledgeEdge)
unfolding group_at
groups_of groups [] = []
groups_of groups (k ∷ ks) = group_at groups k ∷ groups_of groups ks

unfoldable pub group_requirement_edges : List KnowledgeEdge → List (List KnowledgeEdge)
unfolding group_edges groups_of
group_requirement_edges es = let grouped = group_edges es [] [] in groups_of grouped.0 grouped.1

-- 1.0
unfoldable pub one : ℕ
one = 2 ^ 1074

abbrev pub max_of : ℕ → ℕ → ℕ
max_of a b = if ltb a b then b else a

module _ (g : KnowledgeGraph) where
  -- what one requirement edge may be satisfied by
  unfoldable pub alternatives_of : KnowledgeEdge → Option (List Str)
  unfolding lookup is_tag tag_members
  alternatives_of e = elim (lookup e.target g.nodes) [
    | none ↦ none
    | some node ↦ elim (is_tag node.kind) [
      | false ↦ some (e.target ∷ [])
      | true ↦ elim (tag_members g true 32 e.target) [
        | none ↦ none
        | some [] ↦ some (e.target ∷ [])
        | some (m ∷ ms) ↦ some (m ∷ ms)
      ]
    ]
  ]

  unfoldable pub choice_of :
      List KnowledgeEdge
      → (alternatives : List Str) → (quantity : ℕ) → (source_ids : List Str)
      → Option RequirementChoice
  unfolding alternatives_of update sorted_texts
  choice_of [] alternatives quantity source_ids = some (record {
    alternatives = sorted_texts alternatives;
    quantity = quantity;
    source_edge_ids = source_ids;
  })
  choice_of (e ∷ es) alternatives quantity source_ids = elim (alternatives_of e) [
    | none ↦ none
    | some found ↦
        choice_of es (update alternatives found) (max_of quantity e.quantity)
          (source_ids ++ e.edge_id ∷ [])
  ]

  unfoldable pub choices_of : List (List KnowledgeEdge) → Option (List RequirementChoice)
  unfolding choice_of one
  choices_of [] = some []
  choices_of (es ∷ groups) = elim (choice_of es [] one []) [
    | none ↦ none
    | some choice ↦ elim (choices_of groups) [
      | none ↦ none
      | some choices ↦ some (choice ∷ choices)
    ]
  ]

  unfoldable pub method_of : Str → KnowledgeEdge → Option AcquisitionMethod
  unfolding requirements group_requirement_edges choices_of
  method_of target output = elim (requirements g output.source) [
    | none ↦ none
    | some raw ↦ elim (choices_of (group_requirement_edges raw)) [
      | none ↦ none
      | some choices ↦ some (record {
        target = target;
        process = output.source;
        output_quantity = output.quantity;
        output_kind = output.kind;
        requirements = choices;
        provenance_source = output.provenance.source_id;
      })
    ]
  ]

  unfoldable pub methods_of : Str → List KnowledgeEdge → Option (List AcquisitionMethod)
  unfolding method_of
  methods_of target [] = some []
  methods_of target (output ∷ outputs) = elim (method_of target output) [
    | none ↦ none
    | some method ↦ elim (methods_of target outputs) [
      | none ↦ none
      | some methods ↦ some (method ∷ methods)
    ]
  ]

  unfoldable pub acquisition_methods : Str → Option (List AcquisitionMethod)
  unfolding has_node ways_to_obtain methods_of
  acquisition_methods target = elim (has_node g target) [
    | false ↦ none
    | true ↦ elim (ways_to_obtain g target) [
      | none ↦ none
      | some outputs ↦ methods_of target outputs
    ]
  ]
