-- ===== src/Lib.antt =====
-- Motor insurance over the ION network: the two browser applications of this repository.
--
-- bpp-frontend is the insurer's application, bap-frontend the buyer's. Modelled are the pages on
-- which an insurer publishes products and looks at what there is, those on which a buyer searches
-- for a product and takes out a policy, the signing in to the first application, and what the second
-- computes of past orders.
--
-- Publish/ is bpp-frontend/src/pages/PublishPage.jsx, the wizard with which an insurer enters
-- providers, catalogs, resources and offers, reviews them and publishes them.
--   Items      the objects, blank objects and fixed lists of codes
--   Suffix     uniqueSuffix
--   Demo       DEMO_DATA and getDemoData
--   Editor     what the four list steps share: startEdit, handleCancel, handleAdd, the bin of a card
--   Forms      the inputs of the forms; Forms/Lists, Forms/Discounts and
--              Forms/Preview the editors of lists
--   Steps      what differs between the four steps; Steps/Cards their cards, Steps/Linked the
--              inclusions of an offer and ReviewStep
--   Submit     handlePublish: its requests in order. The server is a parameter, a function from
--              the requests before and the request to the reply. Submit/Required has the fields
--              that the back end requires, bpp-application/internal/api/types.go.
--   Wizard     the page: its steps and buttons
--   Nested     setNested
--   Wire       the body of the request that saves a resource, as JSON
--   Errors     parsePublishError, ErrorBox and StepIndicator
--
-- Search/ is bap-frontend/src/pages/HeroPage.jsx, on which a buyer looks for a product, and whose
-- choice opens the page of Flow.
--   Discover   parseDiscoverResponse
--   Card       bap-frontend/src/components/ProductCard.jsx; what the cards of both applications
--              share is in Cards/: chips and their labels, the ladder of discounts, the detail
--   Order, Filters, Late, Quote   proofs
--   An answer may come in any order: the requests without an answer are part of the state.
--
-- Flow/ is bap-frontend/src/pages/PolicyFlowPage.jsx, on which a buyer takes out a policy.
--   Forms      the state and the inputs of VehicleDetailsStep and KYCStep, and their requests
--   Quote      what QuoteStep shows of the answer to the selection
--   Payment    PaymentStep: amounts, shares of the settlement, polling
--   Policy     PolicyIssuedStep: settlement, rating, support
--   Views      what the steps show of their state
--   Page       the page as a state machine: events are inputs, presses, answers, failures and ticks
--              of timers; the requests without an answer are part of the state
--
-- Market/ joins the two applications: a resource of the wizard is saved, listed to the insurer and
-- found by the buyer.
--   Backend    the insurer's back end on that way, bpp-application/internal/service: in beckn.go
--              buildOnSearchResponse, in catalog.go ListResources. The database is a list of rows,
--              and gives back what was stored in it.
--   Entered    the cards as they follow from the wizard's resource alone
--   Whole      CreateResource of internal/http/handlers.go on the requests of the wizard, and the
--              search after it; ids are given from 1 on, one offer's columns to each
--   Reads, Found, Saved, Order, Quote, Listed   proofs: the fields of a product found, its card, its
--              place in the order, its quote, and the insurer's card
--   A decimal of the wizard becomes a JSON number by a parameter; the rates of an offer are counted
--   in hundredths, as in the database's columns.
--
-- Inventory/ is bpp-frontend/src/pages/InventoryPage.jsx: its requests, and the cards of products,
-- offers and catalogs; Inventory/Linked is the view by catalog.
--
-- Insurer/ is what the pages Support, Ratings, Policies, PolicyDetail, Claims, Messages,
-- Overview and Catalogs of bpp-frontend/src/pages load and show. `toUpperCase`, `toLowerCase`,
-- `Number`, `toFixed` and `toLocaleString` are parameters. In the pages of Search, Inventory and
-- Insurer a rendering that throws is `none`, and a page is given by the texts, numbers and parts it
-- shows.
--
-- Session is the signing in of bpp-frontend/src: pages/LoginPage.jsx, pages/RegisterPage.jsx,
-- components/ProtectedRoute.jsx, the routes of App.jsx, the log-out of components/Layout.jsx, and the
-- interceptors of api/client.js; Session/Menu is the menu of Layout.jsx. The translated text of a
-- common error is a parameter.
--
-- History is bap-frontend/src/pages/PolicyHistoryPage.jsx: the coverage pill, the summaries, in
-- History/Tabs the two tabs and their panels, in History/Page the choice between them; and
-- SeamStageBar.jsx and, in History/Drawer, PolicyHistoryDrawer.jsx of bap-frontend/src/components.
--
-- Shell is bap-frontend/src/App.jsx, the routes of the buyer's application, and what the pages of
-- both share: components/StatusBadge.jsx and utils/date.js.
--
-- Api is checkOk of bap-frontend/src/api.js. JSON.stringify, the message of the parser's error, and
-- what a second reading of the body gives are parameters.
--
-- Js/ has what the pages use of JavaScript: texts, `trim`, parsed JSON with `||`, `?.` and
-- `parseInt`. Prelude holds the shared names and lemmas on lists.
--
-- Callbacks run to their end before the next event, as in the browser. An event that needs a button
-- or an input takes no effect while that is not on the page; a second submission of a form is
-- admitted before the spinner is drawn. All recursion is structural, but for `show_ℕ`, which writes a
-- number on fuel: one more than the number, which is enough since each step divides it by ten.
--
-- Amounts are whole rupiah, numbers unbounded where JavaScript has doubles; JSON numbers with a
-- fraction are left out. Not modelled are the styles, texts and animations of the pages, the
-- checks that the browser makes of a form, the formatting of numbers and dates, the rounding of
-- percentages and averages, and, but for Market, the services behind the two applications, which are
-- written in Go.
pub mod Api
pub mod Cards
pub mod Flow
pub mod History
pub mod Insurer
pub mod Inventory
pub mod Js
pub mod Market
pub mod Prelude
pub mod Publish
pub mod Search
pub mod Session
pub mod Shell
