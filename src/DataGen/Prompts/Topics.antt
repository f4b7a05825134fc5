-- ===== src/DataGen/Prompts/Topics.antt =====
-- data-gen/build_prompts.py: the topic pools and the weights of the templates.
use aihomelab.Base.{String, List, [], ◌∷◌}

abbrev pub ingredients : List String
ingredients =
    "butter" ∷ "eggs" ∷ "milk" ∷ "heavy cream" ∷ "cheese" ∷ "parmesan" ∷ "paneer" ∷ "ghee"
    ∷ "yogurt" ∷ "sour cream" ∷ "honey" ∷ "gelatin" ∷ "fish sauce" ∷ "oyster sauce" ∷ "anchovies"
    ∷ "lard" ∷ "chicken broth" ∷ "beef broth" ∷ "bacon" ∷ "chicken" ∷ "ground beef" ∷ "mayonnaise"
    ∷ "buttermilk" ∷ "condensed milk" ∷ "ricotta" ∷ "mozzarella" ∷ "feta" ∷ "cream cheese"
    ∷ "mascarpone" ∷ "all-purpose flour" ∷ "white sugar" ∷ "brown sugar" ∷ "breadcrumbs"
    ∷ "soy sauce" ∷ "miso" ∷ "worcestershire sauce" ∷ "sesame oil" ∷ "peanut butter" ∷ "white wine"
    ∷ "red wine" ∷ "coconut milk" ∷ "almond flour" ∷ "cornstarch" ∷ "baking powder" ∷ "vanilla"
    ∷ "chocolate" ∷ "walnuts" ∷ "cashews" ∷ "pine nuts" ∷ "sunflower seeds" ∷ []

abbrev pub recipe_contexts : List String
recipe_contexts =
    "baking chocolate chip cookies" ∷ "making a creamy pasta sauce" ∷ "preparing a curry base"
    ∷ "making a vinaigrette" ∷ "baking a cake" ∷ "making pancakes" ∷ "making a stir-fry sauce"
    ∷ "preparing risotto" ∷ "making pizza dough" ∷ "making bread" ∷ "making a quiche"
    ∷ "making lasagna" ∷ "making ice cream" ∷ "making a smoothie" ∷ "making a soup base"
    ∷ "making a roux" ∷ "making a salad dressing" ∷ "marinating tofu" ∷ "preparing a stew"
    ∷ "making a frosting" ∷ "making granola" ∷ "making a pie crust" ∷ "preparing biryani"
    ∷ "making a chutney" ∷ "making a dal tadka" ∷ "making a sambar" ∷ "making a Thai curry paste"
    ∷ "making sushi rice" ∷ "making a custard" ∷ "making mac and cheese" ∷ []

abbrev pub techniques : List String
techniques =
    "tempering whole spices (tadka)" ∷ "blooming spices in oil" ∷ "dry-toasting spices"
    ∷ "sweating onions" ∷ "caramelizing onions" ∷ "deglazing" ∷ "fond-building"
    ∷ "mounting a sauce with fat" ∷ "emulsifying a vinaigrette" ∷ "making a roux"
    ∷ "blooming gelatin alternatives (agar agar)" ∷ "laminating dough"
    ∷ "kneading versus stretch-and-fold" ∷ "autolyse in bread-making" ∷ "proofing dough"
    ∷ "scoring bread" ∷ "tempering chocolate" ∷ "blanching vegetables" ∷ "shocking vegetables"
    ∷ "sautéing versus stir-frying" ∷ "dry-rubbing versus marinating" ∷ "brining tofu"
    ∷ "pressing tofu" ∷ "charring vegetables on open flame" ∷ "steaming versus boiling"
    ∷ "pressure-cooking lentils" ∷ "pre-soaking lentils" ∷ "sprouting legumes"
    ∷ "fermenting batter for dosa/idli" ∷ "making cashew cream" ∷ "making a flax egg"
    ∷ "making aquafaba meringue" ∷ "reducing a sauce"
    ∷ "clarifying butter (or making vegan brown butter)" ∷ "folding versus stirring batter"
    ∷ "resting bread dough" ∷ "resting cooked rice" ∷ "finishing with acid"
    ∷ "finishing with fresh herbs" ∷ "balancing salt-sweet-acid-fat-heat" ∷ []

abbrev pub nutrition_targets : List String
nutrition_targets =
    "high-protein" ∷ "low-carb" ∷ "iron-rich" ∷ "calcium-rich" ∷ "high-fiber" ∷ "low-sodium"
    ∷ "anti-inflammatory" ∷ "energy-dense" ∷ "light/low-calorie" ∷ "gut-healthy" ∷ []

abbrev pub cuisines : List String
cuisines =
    "Indian" ∷ "South Indian" ∷ "North Indian" ∷ "Bengali" ∷ "Gujarati" ∷ "Hyderabadi"
    ∷ "Maharashtrian" ∷ "Kashmiri" ∷ "Bihari" ∷ "North East Indian" ∷ "Mediterranean" ∷ "Italian"
    ∷ "Thai" ∷ "Japanese" ∷ "Mexican" ∷ "Middle Eastern" ∷ "Lebanese" ∷ "Chinese" ∷ "Korean"
    ∷ "American" ∷ []

abbrev pub meal_types : List String
meal_types =
    "breakfast" ∷ "lunch" ∷ "dinner" ∷ "snack" ∷ "brunch" ∷ "dessert" ∷ "post-workout meal"
    ∷ "lunchbox meal" ∷ []

abbrev pub indian_south_breakfast_dishes : List String
indian_south_breakfast_dishes =
    "masala dosa" ∷ "plain dosa" ∷ "rava dosa" ∷ "neer dosa" ∷ "idli" ∷ "rava idli"
    ∷ "mini idli with sambar" ∷ "upma" ∷ "semiya upma" ∷ "ven pongal"
    ∷ "sweet pongal (sakkarai pongal)" ∷ "Pesarattu (Andhra moong dosa)" ∷ []

abbrev pub indian_target_ingredients : List String
indian_target_ingredients =
    "paneer" ∷ "ghee" ∷ "malai (clotted cream)" ∷ "khoya (reduced milk solids)" ∷ []

abbrev pub indian_curry_names : List String
indian_curry_names =
    "palak paneer" ∷ "paneer butter masala" ∷ "kadai paneer" ∷ "paneer tikka masala"
    ∷ "shahi paneer" ∷ "matar paneer" ∷ "methi malai paneer" ∷ "dum aloo" ∷ "navratan korma"
    ∷ "malai kofta" ∷ "paneer pasanda" ∷ "paneer bhurji" ∷ "paneer makhani" ∷ "paneer do pyaza"
    ∷ "restaurant-style dal makhani" ∷ []

abbrev pub indian_state_to_dals : List (String × List String)
indian_state_to_dals =
    ("Tamil Nadu", "sambar" ∷ "rasam" ∷ "Tamil Nadu poricha kuzhambu" ∷ [])
    ∷ ("Andhra Pradesh", "pappu (Andhra-style)" ∷ [])
    ∷ ("Hyderabad", "Hyderabadi khatti dal" ∷ [])
    ∷ ("Bengal", "Bengali cholar dal" ∷ [])
    ∷ ("Gujarat", "Gujarati dal (sweet-sour)" ∷ [])
    ∷ ("Punjab", "Punjabi dal makhani" ∷ [])
    ∷ ("Maharashtra", "Maharashtrian varan" ∷ [])
    ∷ ("Rajasthan", "Rajasthani panchmel dal" ∷ [])
    ∷ ("Kerala", "Kerala parippu curry" ∷ [])
    ∷ ("Kashmir", "Kashmiri yakhni-style dal" ∷ [])
    ∷ []

abbrev pub indian_comparison_dals : List String
indian_comparison_dals =
    "North Indian dal tadka" ∷ "dal fry" ∷ "plain yellow moong dal" ∷ "plain toor dal" ∷ "urad dal"
    ∷ []

abbrev pub dietary_directive : List (String × String)
dietary_directive =
    ("vegan", "(REMOVE all animal products — dairy, eggs, honey, gelatin.)")
    ∷ (
      "vegetarian",
      "(REMOVE only meat, poultry, fish, and gelatin. KEEP dairy and eggs unchanged — do NOT substitute them.)",
    )
    ∷ []

abbrev pub indian_sweets : List String
indian_sweets =
    "besan laddoo" ∷ "motichoor laddoo" ∷ "coconut laddoo" ∷ "gajar ka halwa (carrot halwa)"
    ∷ "sooji halwa" ∷ "moong dal halwa" ∷ "badam halwa" ∷ "kheer (rice pudding)"
    ∷ "seviyan (vermicelli pudding)" ∷ "phirni" ∷ "sandesh" ∷ "rasmalai" ∷ "jalebi" ∷ "gulab jamun"
    ∷ "peda" ∷ "thekua (Bihar/Gaya, Chhath festival)" ∷ "tilkut (Gaya sesame-jaggery winter sweet)"
    ∷ "khaja (Silao/Bihar layered sweet)" ∷ "anarsa (Bihar)" ∷ "laung-latika (Bihar/UP)"
    ∷ "malaiyo (Banarasi winter milk-foam dessert)" ∷ "Banarasi launglata" ∷ "Banarasi peda"
    ∷ "makhan-malai (Varanasi)" ∷ []

-- Each weighs 1.0.
abbrev pub base_template_weights : List String
base_template_weights =
    "substitution" ∷ "adaptation" ∷ "constraint_cooking" ∷ "nutrition_target"
    ∷ "technique_explainer" ∷ "cross_cuisine" ∷ []

-- Each weighs 1.0.
abbrev pub indian_template_weights : List String
indian_template_weights =
    "indian_south_breakfast" ∷ "indian_paneer_ghee_substitution" ∷ "indian_regional_dal"
    ∷ "indian_sweet_adaptation" ∷ []
