-- ===== src/Examples/Diagrams.antt =====
-- The diagrams of architecture/_gen at the theorems on their renderer.
use smokejumper.Prelude.{◌≡◌, refl, true, List, [], ◌∷◌, All, ok, text_eq}
use smokejumper.Swimlane.{Diagram, Layout, colours_of, render}
use smokejumper.Swimlane.Apart.{Pairwise, IsOnGrid, AreApart, render_apart}
use smokejumper.Swimlane.Tested.{is_well_formed, tested}
use smokejumper.Swimlane.Scenarios.S1.{s1}
use smokejumper.Swimlane.Scenarios.S2.{s2}
use smokejumper.Swimlane.Scenarios.S3.{s3}
use smokejumper.Swimlane.Scenarios.S4.{s4}
use smokejumper.Swimlane.Journeys.J1.{j1}
use smokejumper.Swimlane.Journeys.J2.{j2}

abbrev diagrams : List Diagram
diagrams = s1 ∷ s2 ∷ s3 ∷ s4 ∷ j1 ∷ j2 ∷ []

-- All six pass the test.
diagrams_pass : All (λ d. is_well_formed d ≡ true) diagrams
unfolding is_well_formed colours_of text_eq
diagrams_pass = (refl, (refl, (refl, (refl, (refl, (refl, tt))))))

render_apart_example :
    (l : Layout) × (render s1 ≡ ok l) × All (IsOnGrid s1) l.cards × Pairwise (AreApart s1) l.cards
render_apart_example =
    let (narrow, drawable, ends, apart) = tested s1 diagrams_pass.0 in
    render_apart s1 narrow drawable ends apart
