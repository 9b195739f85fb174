-- ===== src/Lib.antt =====
-- FileOctopus, the TypeScript front end (packages/frontend, packages/ts-api): the state that the
-- file manager keeps, and the functions that change it.
--
-- The panel store is a reducer: a state with two panels, each with tabs, and actions that each belong
-- to one slice. Components dispatch the actions; the backend's events (batches of a listing, matches of
-- a content search) arrive as actions too, in any order. The terminal store and the table of jobs are
-- reducers of their own, beside it.
--
--   Base            what the language gives: texts (lists of UTF-16 codes), arrays (lists), objects
--                   used as dictionaries (association lists in the order of insertion), integers
--   Uri             packages/ts-api/src/uri.ts (uriScheme ... parentUriFromUri), joinUri of
--                   packages/frontend/src/navigation/uriJoin.ts
--     Display         displayPathFromUri, rootUriForUri, breadcrumbSegmentsFromUri of uri.ts
--   Panel           packages/frontend/src/panelStore.ts and packages/frontend/src/state:
--     Entry, Types    the values from the backend; the state and the actions
--     Host, Storage   what the store takes from its surroundings; panelStorage.ts
--     LoadState       paneTypes.ts
--     Order, Visible  paneSort.ts, parentEntry.ts, the selectors
--     Update          updatePanel, updatePanelTab, the searches for a tab
--     Navigation ... Search    the functions of the slices, one module or two for each
--     Reducer         createInitialState, panelReducer, reducePanelAction and the slices' switches
--     Valid           well formed states, and that each action keeps them
--     History, Ordering, Sizes, Fresh, Slices, Bounded, Stale, Batches, Removal, Picking,
--       Matches, Buffering    the other theorems
--     Controller      packages/frontend/src/navigation/navigationController.ts: what a navigation
--                     dispatches, for each answer of the backend
--     Awaiting, Failing    navigations that the backend refuses
--     Examples, Runs, Picks, Refusals  concrete states, and the theorems at them
--   Commands        packages/frontend/src/commands:
--     Types, Navigating, Operating, Viewing, Serving, Registry    types.ts, registryData.ts, registry.ts
--     Labels, Effects, Branches, Dispatch, Switch    dispatch.ts: the labels of dispatchCommand, the
--                     calls that it makes, its branches and its switch
--     Keys, Bindings, Keyboard    keyCombo.ts, defaultBindings.ts, and
--                     packages/frontend/src/hooks/useKeyboardShortcuts.ts
--     Handled, Sorting, Shortcuts, Answering    the theorems
--     Runs, Pressed   the theorems at concrete states
--   Toolbar         packages/frontend/src/commands/toolbarConfig.ts; Loose, Tidy: normalized toolbars
--   Columns         packages/frontend/src/pane/columnWidths.ts
--   DebugLog        packages/frontend/src/dev/debugLogStore.ts
--   Refreshing      packages/frontend/src/hooks/useOperationRefreshTargets.ts; Deleting: deletions
--   Folders         nextFolderName of packages/frontend/src/hooks/fileOps/useMutationHandlers.ts
--   Terminal        packages/frontend/src/terminal/terminalSlice.ts
--     Input, Quoting  terminal/shellEscape.ts, and what a shell reads of it
--   Jobs            packages/frontend/src/dialogs/operationJobState.ts, and the updates of the table
--                   of jobs in packages/frontend/src/hooks/useJobEventListeners.ts
--
-- A function of the source that may throw gives an Option; an update of a missing active tab counts as
-- an exception, also where the source would only store the new fields without a tab. What a reducer
-- changes outside its state (localStorage, the counter of tab identifiers) and the clock are a record
-- World that it takes and gives back. Functions of the JavaScript engine that depend on the locale, on
-- Unicode tables or on the format of dates are fields of a record Host, a parameter of which nothing is
-- assumed; Jobs takes Date.parse in the same way. Where the source calls Array.prototype.sort, the model
-- sorts by insertion, which is stable as the language demands; the two agree where the comparison is an
-- order. `null` and `undefined` are both none, and a flag that may be left out is false when it is. A
-- split ratio of a terminal area is a number of millionths. Loops of the source that run over a
-- list do so in the model. The one that does not, the search for the name of a new folder, has fuel for
-- one number more than there are names in use, which is enough, as Folders/Naming shows.
--
-- The calls of CommandDispatchDeps that a command makes are a list of effects; those that are actions of
-- the panel store can be carried out by its reducer. The backend of the navigation controller is a
-- record of functions, which answer or fail; the controller's dispatches are a list, between whose
-- elements other actions may come. JSON.parse is a parameter that gives what the source looks at.
--
-- Not modelled: React components and most hooks, which show the state and dispatch the actions; the clients
-- and transports of packages/ts-api, which only pass calls on; the Rust crates; styles and tests. Of the
-- utilities, column presets, the renaming of many files and tags are left for later,
-- and so are the activation of entries and the other handlers of useMutationHandlers.ts.
pub mod Base
pub mod Uri
pub mod Panel
pub mod Terminal
pub mod Jobs
pub mod Folders
pub mod Commands
pub mod Toolbar
pub mod Columns
pub mod DebugLog
pub mod Refreshing
