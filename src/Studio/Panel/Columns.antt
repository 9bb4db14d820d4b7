-- ===== src/Studio/Panel/Columns.antt =====
-- crates/hemsidor24-admin/src/models.rs: the choices of the panel and the lists of the core crate.
use hemsidor.Prelude.{◌≡◌, refl, [], ◌∷◌, map}
use hemsidor.Text.{codes}
use hemsidor.Core.Style
use hemsidor.Core.Style.{all_styles}
use hemsidor.Core.Package
use hemsidor.Core.Package.{all_packages}
use hemsidor.Core.Status
use hemsidor.Core.Status.{all_statuses}
use hemsidor.Studio.Panel.Orders.{order_choices}

-- The choices that the panel offers for an order are the slugs of the core crate's styles, packages
-- and statuses, all of them and in their order.
order_choices-slugs :
    order_choices
    ≡ (codes "style", map Style.slug all_styles)
      ∷ (codes "package", map Package.slug all_packages)
      ∷ (codes "status", map Status.slug all_statuses)
      ∷ []
unfolding order_choices Style.slug Package.slug Status.slug
order_choices-slugs = refl
