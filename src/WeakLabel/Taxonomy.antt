-- ===== src/WeakLabel/Taxonomy.antt =====
-- ml/taxonomy.py: which classes a Sketchfab category allows, the keywords of a class, the classes that a
-- keyword must confirm, and the roster. The tables of LVIS categories are left out, but for their keys.
use mathlib.Core.List.{List, [], ◌∷◌}
use image_genie.Base.{Text, codes}

abbrev pub sketchfab_category_to_classes : List (Text × List Text)
sketchfab_category_to_classes =
    (codes "animals-pets", codes "animal" ∷ [])
    ∷ (codes "food-drink", codes "food" ∷ [])
    ∷ (codes "weapons-military", codes "weapon" ∷ [])
    ∷ (codes "electronics-gadgets", codes "electronics" ∷ [])
    ∷ (codes "architecture", codes "building" ∷ [])
    ∷ (codes "people", codes "figure" ∷ [])
    ∷ (codes "cars-vehicles", codes "car" ∷ codes "aircraft" ∷ [])
    ∷ (codes "furniture-home", codes "chair" ∷ codes "table" ∷ codes "lamp" ∷ [])
    ∷ (codes "characters-creatures", codes "figure" ∷ codes "animal" ∷ [])
    ∷ (codes "nature-plants", codes "plant" ∷ codes "food" ∷ [])
    ∷ []

abbrev pub chair_keywords : List Text
chair_keywords =
    codes "chair"
    ∷ codes "armchair"
    ∷ codes "sofa"
    ∷ codes "couch"
    ∷ codes "seat"
    ∷ codes "stool"
    ∷ codes "bench"
    ∷ codes "recliner"
    ∷ codes "loveseat"
    ∷ codes "ottoman"
    ∷ []

abbrev pub table_keywords : List Text
table_keywords =
    codes "table"
    ∷ codes "desk"
    ∷ codes "nightstand"
    ∷ codes "dining"
    ∷ codes "workbench"
    ∷ codes "countertop"
    ∷ []

abbrev pub lamp_keywords : List Text
lamp_keywords =
    codes "lamp"
    ∷ codes "lampshade"
    ∷ codes "chandelier"
    ∷ codes "lantern"
    ∷ codes "sconce"
    ∷ codes "luminaire"
    ∷ codes "lamppost"
    ∷ codes "streetlight"
    ∷ []

abbrev pub car_keywords : List Text
car_keywords =
    codes "car"
    ∷ codes "truck"
    ∷ codes "vehicle"
    ∷ codes "van"
    ∷ codes "bus"
    ∷ codes "jeep"
    ∷ codes "sedan"
    ∷ codes "suv"
    ∷ codes "automobile"
    ∷ codes "motorcycle"
    ∷ codes "scooter"
    ∷ codes "wagon"
    ∷ codes "ambulance"
    ∷ codes "tractor"
    ∷ codes "tank"
    ∷ []

abbrev pub aircraft_keywords : List Text
aircraft_keywords =
    codes "aircraft"
    ∷ codes "airplane"
    ∷ codes "plane"
    ∷ codes "jet"
    ∷ codes "helicopter"
    ∷ codes "chopper"
    ∷ codes "drone"
    ∷ codes "glider"
    ∷ codes "biplane"
    ∷ codes "seaplane"
    ∷ codes "spaceship"
    ∷ codes "rocket"
    ∷ []

abbrev pub figure_keywords : List Text
figure_keywords =
    codes "character"
    ∷ codes "figure"
    ∷ codes "figurine"
    ∷ codes "statue"
    ∷ codes "doll"
    ∷ codes "robot"
    ∷ codes "person"
    ∷ codes "human"
    ∷ codes "man"
    ∷ codes "woman"
    ∷ codes "girl"
    ∷ codes "boy"
    ∷ codes "soldier"
    ∷ codes "warrior"
    ∷ codes "knight"
    ∷ codes "hero"
    ∷ codes "zombie"
    ∷ codes "skeleton"
    ∷ codes "mannequin"
    ∷ []

abbrev pub animal_keywords : List Text
animal_keywords =
    codes "animal"
    ∷ codes "creature"
    ∷ codes "monster"
    ∷ codes "dragon"
    ∷ codes "pokemon"
    ∷ codes "beast"
    ∷ codes "cat"
    ∷ codes "dog"
    ∷ codes "horse"
    ∷ codes "bird"
    ∷ codes "fish"
    ∷ codes "snake"
    ∷ codes "dinosaur"
    ∷ codes "wolf"
    ∷ codes "bear"
    ∷ codes "lion"
    ∷ codes "tiger"
    ∷ []

abbrev pub food_keywords : List Text
food_keywords =
    codes "food"
    ∷ codes "apple"
    ∷ codes "banana"
    ∷ codes "orange"
    ∷ codes "pear"
    ∷ codes "strawberry"
    ∷ codes "pineapple"
    ∷ codes "lemon"
    ∷ codes "tomato"
    ∷ codes "potato"
    ∷ codes "carrot"
    ∷ codes "corn"
    ∷ codes "pumpkin"
    ∷ codes "mushroom"
    ∷ codes "fruit"
    ∷ codes "vegetable"
    ∷ codes "bread"
    ∷ codes "cake"
    ∷ codes "cupcake"
    ∷ codes "pizza"
    ∷ codes "burger"
    ∷ codes "hamburger"
    ∷ codes "sandwich"
    ∷ codes "sushi"
    ∷ codes "doughnut"
    ∷ codes "donut"
    ∷ codes "egg"
    ∷ codes "pie"
    ∷ []

abbrev pub plant_keywords : List Text
plant_keywords =
    codes "plant"
    ∷ codes "tree"
    ∷ codes "flower"
    ∷ codes "leaf"
    ∷ codes "cactus"
    ∷ codes "palm"
    ∷ codes "fern"
    ∷ codes "bonsai"
    ∷ codes "succulent"
    ∷ codes "shrub"
    ∷ codes "bush"
    ∷ codes "foliage"
    ∷ codes "sunflower"
    ∷ codes "rose"
    ∷ codes "tulip"
    ∷ codes "houseplant"
    ∷ codes "ivy"
    ∷ codes "bamboo"
    ∷ codes "grass"
    ∷ []

abbrev pub building_keywords : List Text
building_keywords =
    codes "building"
    ∷ codes "house"
    ∷ codes "tower"
    ∷ codes "castle"
    ∷ codes "church"
    ∷ codes "cathedral"
    ∷ codes "temple"
    ∷ codes "mosque"
    ∷ codes "bridge"
    ∷ codes "skyscraper"
    ∷ codes "barn"
    ∷ codes "cabin"
    ∷ codes "cottage"
    ∷ codes "hut"
    ∷ codes "lighthouse"
    ∷ codes "windmill"
    ∷ codes "fortress"
    ∷ codes "palace"
    ∷ codes "mansion"
    ∷ codes "warehouse"
    ∷ codes "factory"
    ∷ codes "dome"
    ∷ codes "fort"
    ∷ codes "shed"
    ∷ codes "stadium"
    ∷ codes "pyramid"
    ∷ codes "villa"
    ∷ codes "apartment"
    ∷ codes "hall"
    ∷ []

abbrev pub weapon_keywords : List Text
weapon_keywords =
    codes "weapon"
    ∷ codes "sword"
    ∷ codes "gun"
    ∷ codes "rifle"
    ∷ codes "pistol"
    ∷ codes "knife"
    ∷ codes "dagger"
    ∷ codes "spear"
    ∷ codes "blade"
    ∷ codes "cannon"
    ∷ codes "shield"
    ∷ codes "armor"
    ∷ codes "firearm"
    ∷ codes "revolver"
    ∷ codes "shotgun"
    ∷ codes "grenade"
    ∷ codes "missile"
    ∷ codes "katana"
    ∷ codes "machete"
    ∷ codes "crossbow"
    ∷ codes "halberd"
    ∷ codes "warhammer"
    ∷ codes "axe"
    ∷ codes "mace"
    ∷ []

abbrev pub electronics_keywords : List Text
electronics_keywords =
    codes "electronics"
    ∷ codes "computer"
    ∷ codes "laptop"
    ∷ codes "phone"
    ∷ codes "smartphone"
    ∷ codes "keyboard"
    ∷ codes "monitor"
    ∷ codes "camera"
    ∷ codes "television"
    ∷ codes "radio"
    ∷ codes "speaker"
    ∷ codes "headphone"
    ∷ codes "earphone"
    ∷ codes "microphone"
    ∷ codes "printer"
    ∷ codes "router"
    ∷ codes "console"
    ∷ codes "tablet"
    ∷ codes "calculator"
    ∷ codes "telephone"
    ∷ codes "motherboard"
    ∷ codes "circuit"
    ∷ codes "charger"
    ∷ codes "gadget"
    ∷ []

abbrev pub class_to_keywords : List (Text × List Text)
class_to_keywords =
    (codes "chair", chair_keywords)
    ∷ (codes "table", table_keywords)
    ∷ (codes "lamp", lamp_keywords)
    ∷ (codes "car", car_keywords)
    ∷ (codes "aircraft", aircraft_keywords)
    ∷ (codes "figure", figure_keywords)
    ∷ (codes "animal", animal_keywords)
    ∷ (codes "food", food_keywords)
    ∷ (codes "plant", plant_keywords)
    ∷ (codes "building", building_keywords)
    ∷ (codes "weapon", weapon_keywords)
    ∷ (codes "electronics", electronics_keywords)
    ∷ []

abbrev pub confirm_required_classes : List Text
confirm_required_classes = codes "building" ∷ []

-- The keys of CLASS_TO_LVIS_CATEGORIES, sorted.
abbrev pub roster : List Text
roster =
    codes "aircraft"
    ∷ codes "animal"
    ∷ codes "building"
    ∷ codes "car"
    ∷ codes "chair"
    ∷ codes "electronics"
    ∷ codes "figure"
    ∷ codes "food"
    ∷ codes "lamp"
    ∷ codes "plant"
    ∷ codes "table"
    ∷ codes "weapon"
    ∷ []
